-- ===== src/Proxy/Request.antt =====
-- How the request that loudmouth/lm-proxy.c sends to a proxy is read.
use mathlib.Core.List.{append_assoc}
use loudmouth.Base.{
  ℕ, zero, suc, ◌+◌, ◌/◌, ◌%◌, ◌<◌, ◌≡◌, refl, sym, ap, ◌∙◌, Bool, true, false, not, ◌&&◌,
  Bool-cases, inl, inr, List, [], ◌∷◌, ◌++◌, Option, none, some, Text, codes, ◌==◌, if◌then◌else◌,
  arith,
}
use loudmouth.Base.Decimal.{digits, decimal, value_from, digits-value_from}
use loudmouth.Proxy.{Proxy, host_port, crlf, authorization, http_negotiate}

-- Whether a text does not have a character.
abbrev pub lacks : ℕ → Text → Bool
lacks c [] = true
lacks c (x ∷ xs) = not (x == c) && lacks c xs

-- Whether a text stands in one line.
abbrev pub is_line : Text → Bool
is_line [] = true
is_line (x ∷ xs) = not (x == b'\r') && (not (x == b'\n') && is_line xs)

-- The text up to a character, and what is behind it.
abbrev pub until : ℕ → Text → Text × Text
until c [] = ([], [])
until c (x ∷ xs) = let (front, rest) = until c xs in if x == c then ([], xs) else (x ∷ front, rest)

abbrev push : ℕ → List Text → List Text
push c [] = (c ∷ []) ∷ []
push c (l ∷ ls) = (c ∷ l) ∷ ls

-- The lines of a text, which end with a line feed; carriage returns are skipped.
abbrev pub lines : Text → List Text
lines [] = [] ∷ []
lines (c ∷ cs) =
    let rest = lines cs in
    if c == b'\r' then rest else if c == b'\n' then [] ∷ rest else push c rest

-- A request line: the method, the host, the port and the version.
abbrev pub read_line : Text → Text × Text × ℕ × Text
read_line l =
    let (method, target) = until b' ' l in
    let (host, behind) = until b':' target in
    let (port, version) = until b' ' behind in (method, host, value_from 0 port, version)

until-append : (c : ℕ) (t rest : Text) → lacks c t ≡ true → until c (t ++ c ∷ rest) ≡ (t, rest)
until-append c [] rest h = ground arith
until-append c (x ∷ t) rest h = elim (Bool-cases (x == c)) [
  | inl same ↦ let never : false ≡ true = sym (ap (λ (b : Bool). not b && lacks c t) same) ∙ h in cc
  | inr other ↦
      let later = sym (ap (λ (b : Bool). not b && lacks c t) other) ∙ h in
      rw (other, until-append c t rest later) refl
]

lines-line : (t rest : Text) → is_line t ≡ true → lines (t ++ (crlf ++ rest)) ≡ t ∷ lines rest
lines-line [] rest h = refl
lines-line (x ∷ t) rest h = elim (Bool-cases (x == b'\r')) [
  | inl same ↦
      let never : false ≡ true =
        sym (ap (λ (b : Bool). not b && (not (x == b'\n') && is_line t)) same) ∙ h in
      cc
  | inr other ↦
      let next = sym (ap (λ (b : Bool). not b && (not (x == b'\n') && is_line t)) other) ∙ h in
      elim (Bool-cases (x == b'\n')) [
        | inl feed ↦
            let never : false ≡ true = sym (ap (λ (b : Bool). not b && is_line t) feed) ∙ next in cc
        | inr no_feed ↦
            let later = sym (ap (λ (b : Bool). not b && is_line t) no_feed) ∙ next in
            rw (other, no_feed, lines-line t rest later) refl
      ]
]

is_line-append : (a b : Text) → is_line (a ++ b) ≡ (is_line a && is_line b)
is_line-append [] b = refl
is_line-append (x ∷ a) b = ground (arith, is_line-append a b)

lacks-append : (c : ℕ) (a b : Text) → lacks c (a ++ b) ≡ (lacks c a && lacks c b)
lacks-append c [] b = refl
lacks-append c (x ∷ a) b = ground (arith, lacks-append c a b)

-- Digits are behind the blank, the carriage return and the line feed.
digits-lacks : (fuel n : ℕ) → lacks b' ' (digits fuel n) ≡ true
unfolding digits
digits-lacks zero n = refl
digits-lacks (suc fuel) n = ground (
  arith,
  digits-lacks fuel (n / 10),
  lacks-append b' ' (digits fuel (n / 10)) ((b'0' + n % 10) ∷ []),
)

digits-is_line : (fuel n : ℕ) → is_line (digits fuel n) ≡ true
unfolding digits
digits-is_line zero n = refl
digits-is_line (suc fuel) n = ground (
  arith,
  digits-is_line fuel (n / 10),
  is_line-append (digits fuel (n / 10)) ((b'0' + n % 10) ∷ []),
)

-- The first lines of a request.
abbrev request_line : Text → ℕ → Text
request_line server port = codes "CONNECT " ++ (host_port server port ++ codes " HTTP/1.1")

abbrev host_line : Text → ℕ → Text
host_line server port = codes "Host: " ++ host_port server port

-- A line for the host: the name of the field, the host and the port.
abbrev pub read_host : Text → Text × Text × ℕ
read_host l =
    let (name, target) = until b' ' l in
    let (host, port) = until b':' target in (name, host, value_from 0 port)

-- The lines with the user's name and password, which base64 hides.
abbrev pub credentials : (Text → Text) → Option Text → Option Text → List Text
credentials base64_encode (some username) (some password) =
    (codes "Proxy-Authorization: Basic " ++ base64_encode (username ++ b':' ∷ password)) ∷ []
credentials base64_encode _ _ = []

read_line-request_line :
    (server : Text) (port : ℕ)
    → lacks b':' server ≡ true
    → port < 4294967296
    → read_line (request_line server port) ≡ (codes "CONNECT", server, port, codes "HTTP/1.1")
unfolding decimal
read_line-request_line server port h small =
    rw
      (
        append_assoc server (b':' ∷ digits 10 port) (codes " HTTP/1.1"),
        until-append b':' server (digits 10 port ++ codes " HTTP/1.1") h,
        until-append b' ' (digits 10 port) (codes "HTTP/1.1") (digits-lacks 10 port),
        digits-value_from 10 port (omega (arith, small)),
      )
      refl

until_end : (c : ℕ) (t : Text) → lacks c t ≡ true → until c t ≡ (t, [])
until_end c [] h = refl
until_end c (x ∷ t) h = ground (arith, until_end c t)

read_host-host_line :
    (server : Text) (port : ℕ)
    → lacks b':' server ≡ true
    → port < 4294967296
    → read_host (host_line server port) ≡ (codes "Host:", server, port)
unfolding decimal
read_host-host_line server port h small =
    rw
      (
        until-append b':' server (digits 10 port) h,
        digits-value_from 10 port (omega (arith, small)),
      )
      refl

host_port-is_line :
    (server : Text) (port : ℕ) → is_line server ≡ true → is_line (host_port server port) ≡ true
unfolding decimal
host_port-is_line server port h =
    ground (arith, is_line-append server (b':' ∷ digits 10 port), digits-is_line 10 port)

request_line-is_line :
    (server : Text) (port : ℕ) → is_line server ≡ true → is_line (request_line server port) ≡ true
request_line-is_line server port h =
    is_line-append (host_port server port) (codes " HTTP/1.1")
    ∙ ap (λ (b : Bool). b && true) (host_port-is_line server port h)

lines-authorization :
    (base64_encode : Text → Text) (username password : Option Text)
    → ((t : Text) → is_line (base64_encode t) ≡ true)
    → lines (authorization base64_encode username password ++ crlf)
      ≡ credentials base64_encode username password ++ [] ∷ [] ∷ []
unfolding authorization
lines-authorization base64_encode none password h = refl
lines-authorization base64_encode (some username) none h = refl
lines-authorization base64_encode (some username) (some password) h =
    let secret = base64_encode (username ++ b':' ∷ password) in
    ap (λ t. lines (codes "Proxy-Authorization: Basic " ++ t)) (append_assoc secret crlf crlf)
    ∙ lines-line (codes "Proxy-Authorization: Basic " ++ secret) crlf
        (h (username ++ b':' ∷ password))

-- What proxy_http_negotiate sends is read as a request in the lines of HTTP: its first line asks to
-- CONNECT to the server and the port, its second names them as the host, then come the name and the
-- password of the proxy's user, if both are set, and one empty line, behind which there is nothing.
-- The server's name has no colon and no line end, and base64 makes no line ends.
pub lines-http_negotiate :
    (base64_encode : Text → Text) (proxy : Proxy) (server : Text) (port : ℕ)
    → ((t : Text) → is_line (base64_encode t) ≡ true)
    → is_line server ≡ true
    → lacks b':' server ≡ true
    → port < 4294967296
    → (first : Text) × (second : Text) × (lines (http_negotiate base64_encode proxy server port)
        ≡ first
          ∷ second
          ∷ (credentials base64_encode proxy.username proxy.password ++ [] ∷ [] ∷ []))
      × (read_line first ≡ (codes "CONNECT", server, port, codes "HTTP/1.1"))
      × (read_host second ≡ (codes "Host:", server, port))
unfolding http_negotiate
lines-http_negotiate base64_encode proxy server port encodes one_line no_colon small =
    let end = authorization base64_encode proxy.username proxy.password ++ crlf in
    let tail = host_line server port ++ (crlf ++ end) in
    (
      request_line server port,
      host_line server port,
      ap (λ t. lines (codes "CONNECT " ++ t))
            (sym (append_assoc (host_port server port) (codes " HTTP/1.1") (crlf ++ tail)))
          ∙ (lines-line (request_line server port) tail (request_line-is_line server port one_line)
              ∙ ap (λ ls. request_line server port ∷ ls)
                  (lines-line (host_line server port) end (host_port-is_line server port one_line)
                    ∙ ap (λ ls. host_line server port ∷ ls)
                        (lines-authorization base64_encode proxy.username proxy.password encodes))),
      read_line-request_line server port no_colon small,
      read_host-host_line server port no_colon small,
    )
