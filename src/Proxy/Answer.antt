-- ===== src/Proxy/Answer.antt =====
-- Which answers of a proxy loudmouth/lm-proxy.c takes.
use mathlib.Core.List.{append-nil, append_assoc}
use loudmouth.Base.{
  ℕ, zero, suc, ◌+◌, ◌-◌, ◌≤◌, ◌≡◌, refl, sym, ap, ◌∙◌, Bool, true, false, not, ◌&&◌, List, [], ◌∷◌,
  ◌++◌, Text, codes, starts_with, starts_with-append, starts_with-take, ltb, if◌then◌else◌, length,
  length-append, length-drop, take, drop, take-append-drop, take_all, arith, Bool-cases, inl, inr,
  ◌↔◌, ◌⊎◌,
}
use loudmouth.Proxy.{Proxy, crlf, http_read_cb, removes_watch, succeeds, read_cb, reads}

-- The status line of a success, in either version of HTTP, and whatever follows it, up to the end
-- of a header.
abbrev pub success_status : Bool → Text
success_status true = codes "HTTP/1.1 200"
success_status false = codes "HTTP/1.0 200"

abbrev pub answer : Bool → Text → Text
answer newer rest = success_status newer ++ (rest ++ (crlf ++ crlf))

drop-append : (a b : Text) → drop (length a) (a ++ b) ≡ b
drop-append [] b = refl
drop-append (x ∷ a) b = drop-append a b

drop_past : (a u : Text) (n k : ℕ) → n ≡ length a + k → drop n (a ++ u) ≡ drop k u
drop_past [] u n k e = let e' : n ≡ k = omega arith in ap (λ (i : ℕ). drop i u) e'
drop_past (x ∷ a) u zero k e = absurd (omega arith)
drop_past (x ∷ a) u (suc n) k e = drop_past a u n k (omega arith)

empty : (t : Text) → length t ≡ 0 → t ≡ []
empty [] h = refl
empty (x ∷ t) h = absurd (omega arith)

-- A text of the same length that starts with another is that.
starts_with_whole : (t a : Text) → starts_with t a ≡ true → length t ≡ length a → t ≡ a
starts_with_whole t a h l =
    let split = starts_with-take t a h in
    let left : length (drop (length a) t) ≡ 0 = omega (arith, l, length-drop (length a) t) in
    split ∙ ap (λ r. a ++ r) (empty (drop (length a) t) left) ∙ append-nil a

-- A text that begins with one and ends with another, and is long enough for both.
overlap :
    (t a b : Text)
    → starts_with t a ≡ true
    → starts_with (drop (length t - length b) t) b ≡ true
    → length a + length b ≤ length t
    → (rest : Text) × (t ≡ a ++ (rest ++ b))
overlap t a b h k l =
    let u = drop (length a) t in
    let n = length u - length b in
    let split = starts_with-take t a h in
    let size : length t ≡ length a + length u = omega (arith, length-drop (length a) t, l) in
    let tail : drop (length t - length b) t ≡ drop n u =
      ap (drop (length t - length b)) split
      ∙ drop_past a u (length t - length b) n (omega (arith, size, l)) in
    let last : drop n u ≡ b =
      starts_with_whole (drop n u) b (ap (λ r. starts_with r b) (sym tail) ∙ k)
        (omega (arith, length-drop n u, size, l)) in
    (take n u, split ∙ ap (λ r. a ++ r) (sym (take-append-drop n u) ∙ ap (λ r. take n u ++ r) last))

length-status : (newer : Bool) → length (success_status newer) ≡ 12
length-status true = refl
length-status false = refl

accepted_long : (newer : Bool) (rest : Text) → 16 ≤ length (answer newer rest)
accepted_long newer rest = omega (
  arith,
  length-append (success_status newer) (rest ++ (crlf ++ crlf)),
  length-append rest (crlf ++ crlf),
  length-status newer,
)

answer-ends :
    (newer : Bool) (rest : Text)
    → drop (length (answer newer rest) - 4) (answer newer rest) ≡ crlf ++ crlf
answer-ends newer rest =
    let front = success_status newer ++ rest in
    let e : answer newer rest ≡ front ++ (crlf ++ crlf) =
      sym (append_assoc (success_status newer) rest (crlf ++ crlf)) in
    ap (λ t. drop (length t - 4) t) e
    ∙ ap (λ n. drop n (front ++ (crlf ++ crlf)))
        (let l : length (front ++ (crlf ++ crlf)) - 4 ≡ length front =
            omega (arith, length-append front (crlf ++ crlf)) in
          l)
    ∙ drop-append front (crlf ++ crlf)

-- The three tests of the code, passed.
passed :
    (short a b c : Bool)
    → (if short then false else if not a && not b then false else c) ≡ true
    → (short ≡ false) × ((a ≡ true) ⊎ (b ≡ true)) × (c ≡ true)
passed false true b c h = (refl, inl refl, h)
passed false false true c h = (refl, inr refl, h)
passed false false false c h = cc
passed true a b c h = cc

passes :
    (short a b c : Bool)
    → short ≡ false
    → (a ≡ true) ⊎ (b ≡ true)
    → c ≡ true
    → (if short then false else if not a && not b then false else c) ≡ true
passes false a b true s (inl e) h = ground (arith)
passes false a b true s (inr e) h = ground (arith)
passes true a b c s ab h = cc
passes false a b false s ab h = cc

accepted_status :
    (newer : Bool) (t : Text)
    → (starts_with (success_status newer ++ t) (success_status true) ≡ true)
      ⊎ (starts_with (success_status newer ++ t) (success_status false) ≡ true)
accepted_status true t = inl (starts_with-append (success_status true) t)
accepted_status false t = inr (starts_with-append (success_status false) t)

accepted : (newer : Bool) (rest : Text) → http_read_cb (answer newer rest) ≡ true
unfolding http_read_cb
accepted newer rest =
    let t = answer newer rest in
    let long : ltb (length t) 16 ≡ false = ground (arith, accepted_long newer rest) in
    let begins = accepted_status newer (rest ++ (crlf ++ crlf)) in
    let ends : starts_with (drop (length t - 4) t) (crlf ++ crlf) ≡ true =
      ap (λ e. starts_with e (crlf ++ crlf)) (answer-ends newer rest) in
    passes (ltb (length t) 16) (starts_with t (success_status true))
      (starts_with t (success_status false)) (starts_with (drop (length t - 4) t) (crlf ++ crlf))
      long begins ends

taken :
    (buf : Text)
    → http_read_cb buf ≡ true
    → (newer : Bool) × (rest : Text) × (buf ≡ answer newer rest)
unfolding http_read_cb
taken buf h =
    let (long, begins, ends) =
      passed (ltb (length buf) 16) (starts_with buf (success_status true))
        (starts_with buf (success_status false))
        (starts_with (drop (length buf - 4) buf) (crlf ++ crlf)) h in
    let size : 16 ≤ length buf = ground (arith) in
    elim begins [
      | inl b ↦
          let (rest, e) = overlap buf (success_status true) (crlf ++ crlf) b ends size in
          (true, rest, e)
      | inr b ↦
          let (rest, e) = overlap buf (success_status false) (crlf ++ crlf) b ends size in
          (false, rest, e)
    ]

-- The proxy's answer, all read at once, is taken exactly if it is the status line of a success in
-- HTTP 1.0 or 1.1, then any text, then the empty line that ends a header.
http_read_cb-answer :
    (buf : Text)
    → (http_read_cb buf ≡ true) ↔ ((newer : Bool) × (rest : Text) × (buf ≡ answer newer rest))
http_read_cb-answer buf = (taken buf, λ (newer, rest, e). ap http_read_cb e ∙ accepted newer rest)

-- What the reads of the proxy's answer do, by the verdict on the first.
reads-verdict :
    (proxy : Proxy) (first : Text) (later : List Text) (b : Bool)
    → http_read_cb (take 512 first) ≡ b
    → reads false proxy (first ∷ later)
      ≡ (if b then removes_watch proxy.io_watch ∷ succeeds ∷ [] else [])
unfolding reads read_cb
reads-verdict proxy first later true e = rw e
reads-verdict proxy first later false e = rw e

-- Only the first read of the proxy's answer counts: the connection goes on exactly if that read is
-- an answer as above by itself, whatever is read afterwards.
pub reads-first :
    (proxy : Proxy) (first : Text) (later : List Text)
    → length first ≤ 512
    → (reads false proxy (first ∷ later) ≡ removes_watch proxy.io_watch ∷ succeeds ∷ [])
      ↔ ((newer : Bool) × (rest : Text) × (first ≡ answer newer rest))
reads-first proxy first later l =
    let whole : http_read_cb (take 512 first) ≡ http_read_cb first =
      ap http_read_cb (take_all first 512 l) in
    let (to, back) = http_read_cb-answer first in
    elim (Bool-cases (http_read_cb first)) [
      | inl y ↦ (λ h. to y, λ h. reads-verdict proxy first later true (whole ∙ y))
      | inr n ↦ (
        λ h. let d = reads-verdict proxy first later false (whole ∙ n) in cc,
        λ a. let d = back a in cc,
      )
    ]
