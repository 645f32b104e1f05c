-- ===== src/Tests/Proxies.antt =====
-- Tests of the model of loudmouth/lm-proxy.c.
use loudmouth.Base.{◌≡◌, refl, ◌↔◌, arith, Bool, false, [], ◌∷◌, ◌++◌, some, Text, codes, decimal}
use loudmouth.Proxy.{
  Proxy, http, http_read_cb, http_negotiate, read_cb, reads, crlf, removes_watch, succeeds,
  set_username, set_password, host_port,
}
use loudmouth.Proxy
use loudmouth.Proxy.Request.{lines, read_line, read_host, lines-http_negotiate}
use loudmouth.Proxy.Answer.{answer, reads-first}

abbrev proxy : Proxy
proxy = Proxy.new http

abbrev status : Text
status = codes "HTTP/1.0 200 OK"

abbrev whole : Text
whole = status ++ (crlf ++ crlf)

-- An answer in two parts is not taken.
in_parts : reads false proxy (status ∷ (crlf ++ crlf) ∷ []) ≡ []
unfolding reads
in_parts = refl

request :
    http_negotiate
      (λ t. t)
      (set_password (set_username proxy (some (codes "u"))) (some (codes "p")))
      (codes "h")
      5222
    ≡ codes "CONNECT h:5222 HTTP/1.1"
      ++ (crlf
          ++ (codes "Host: h:5222"
              ++ (crlf ++ (codes "Proxy-Authorization: Basic u:p" ++ (crlf ++ crlf)))))
unfolding http_negotiate set_password set_username decimal
request = refl

reads-first_example :
    (reads false proxy (whole ∷ codes "<stream>" ∷ [])
      ≡ removes_watch proxy.io_watch ∷ succeeds ∷ [])
    ↔ ((newer : Bool) × (rest : Text) × (whole ≡ answer newer rest))
reads-first_example = reads-first proxy whole (codes "<stream>" ∷ []) (omega arith)

lines-http_negotiate_example :
    (first : Text) × (second : Text) × (lines (http_negotiate (λ t. []) proxy (codes "h") 5222)
      ≡ first ∷ second ∷ [] ∷ [] ∷ [])
    × (read_line first ≡ (codes "CONNECT", codes "h", 5222, codes "HTTP/1.1"))
    × (read_host second ≡ (codes "Host:", codes "h", 5222))
unfolding Proxy.new
lines-http_negotiate_example =
    lines-http_negotiate (λ t. []) proxy (codes "h") 5222 (λ t. refl) refl refl (omega arith)
