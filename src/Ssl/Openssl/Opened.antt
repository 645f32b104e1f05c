-- ===== src/Ssl/Openssl/Opened.antt =====
-- A socket that is opened with OpenSSL: loudmouth/lm-old-socket.c on loudmouth/lm-ssl-openssl.c.
use loudmouth.Base.{ℕ, Bool, true, false, List, Option, none, some}
use loudmouth.Socket.{Socket}
use loudmouth.Ssl.{SslStatus, SslResponse}
use loudmouth.Ssl.Reports.{listening}
use loudmouth.Ssl.Openssl.{OpenSsl}

abbrev pub is_number : Option ℕ → Bool
is_number none = false
is_number (some n) = true

module _ (answer : SslStatus → SslResponse) where
  -- An object whose callback is listened to.
  abbrev pub asking : OpenSsl (List SslStatus) → OpenSsl (List SslStatus)
  asking ssl = record ssl { base = listening ssl.base answer }
