-- ===== src/Resolver/Srv.antt =====
-- The choice of a server in the answer to an SRV query: loudmouth/lm-resolver.c, against the records
-- of RFC 2782 that the answer holds.
use loudmouth.Base.{
  ℕ, zero, suc, ◌+◌, ◌≤◌, ◌<◌, ◌≡◌, refl, sym, ap, ◌∙◌, subst, ◌⊎◌, inl, inr, List, [], ◌∷◌, Option,
  none, some, Text, length, get_elem?, ltb, if◌then◌else◌, arith, Bool-cases, Option-cases, tests,
}
use loudmouth.Resolver.{
  Response, get_short, move, skip_questions, Preferred, prefer, read_answers, chosen,
  parse_srv_response,
}

-- A record of type SRV; its weight is not looked at.
pub record SrvRecord : Type 0 where
  pub priority : ℕ
  pub port : ℕ
  pub target : Text

-- The name at a position: its length in the response, and what it is expanded to.
abbrev pub NameAt : Response → ℕ → ℕ → Text → Type 0
NameAt response pos len name = (buf : Text) → response.dn_expand pos buf ≡ (some len, name)

-- A number of questions at a position, and where they end.
pub data QuestionsAt (response : Response) : ℕ → ℕ → ℕ → Type 0 where
  no_question : {pos : ℕ} → QuestionsAt response 0 pos pos
  question :
      {n pos len end : ℕ} {name : Text}
      → NameAt response pos len name
      → QuestionsAt response n (pos + len + 4) end
      → QuestionsAt response (suc n) pos end

-- The records of the answers at a position: the name of the owner, ten bytes that are not looked
-- at, the priority, the weight and the port, two bytes each, and the name of the target.
pub data AnswersAt (response : Response) : ℕ → List SrvRecord → Type 0 where
  no_answer : {pos : ℕ} → AnswersAt response pos []
  answer :
      {pos len target_len : ℕ} {owner : Text} {s : SrvRecord} {rest : List SrvRecord}
      → NameAt response pos len owner
      → get_short response (pos + len + 10) ≡ s.priority
      → get_short response (pos + len + 10 + 4) ≡ s.port
      → NameAt response (pos + len + 10 + 6) target_len s.target
      → AnswersAt response (pos + len + 10 + 6 + target_len) rest
      → AnswersAt response pos (s ∷ rest)

abbrev or_else : Option SrvRecord → SrvRecord → Option SrvRecord
or_else (some better) s = some better
or_else none s = some s

-- The record of the lowest priority below a limit, the first of several.
abbrev pub lowest : ℕ → List SrvRecord → Option SrvRecord
lowest limit [] = none
lowest limit (s ∷ rest) =
    if ltb s.priority limit then or_else (lowest s.priority rest) s else lowest limit rest

-- The target and port of a record, unless the target is empty, which says there is no such service.
abbrev pub server_of : Option SrvRecord → Option (Text × ℕ)
server_of none = none
server_of (some s) = elim s.target [ [] ↦ none | _ ↦ some (s.target, s.port) ]

skip_questions_lem :
    (response : Response) (n pos end : ℕ) (buf : Text)
    → QuestionsAt response n pos end
    → (skip_questions response n pos buf).0 ≡ end
unfolding skip_questions
skip_questions_lem response n pos end buf no_question = refl
skip_questions_lem response (suc n) pos end buf (question {len} {name} here rest) =
    rw (here buf, skip_questions)
      (skip_questions_lem response n (pos + len + 4) end (response.dn_expand pos buf).1 rest)

-- What is preferred after the answers, by the record of the lowest priority among them.
abbrev preferred : Preferred → Option SrvRecord → Preferred
preferred best none = best
preferred best (some s) = record { name = s.target; port = s.port; prio = s.priority }

preferred-or_else :
    (best : Preferred) (s : SrvRecord) (o : Option SrvRecord)
    → preferred best (or_else o s) ≡ preferred (preferred best (some s)) o
preferred-or_else best s none = refl
preferred-or_else best s (some t) = refl

read_answers_lem :
    (response : Response) (records : List SrvRecord) (pos : ℕ) (buf : Text) (best : Preferred)
    → AnswersAt response pos records
    → read_answers response (length records) pos buf best
      ≡ preferred best (lowest best.prio records)
unfolding read_answers prefer move
read_answers_lem response [] pos buf best at = refl
read_answers_lem response (s ∷ rest) pos buf best
      (answer {len} {target_len} {owner} here prio port there more) =
    let next = pos + len + 10 + 6 + target_len in
    rw (here buf) (
      rw (there (response.dn_expand pos buf).1) (
        rw (prio, port)
          (elim (Bool-cases (ltb s.priority best.prio)) [
            | inl less ↦ rw less (
                read_answers_lem response rest next s.target (preferred best (some s)) more
                ∙ sym (preferred-or_else best s (lowest s.priority rest)))
            | inr not_less ↦ rw not_less (read_answers_lem response rest next s.target best more)
          ])))

-- `pref_name`, `pref_port` and `pref_prio` at first.
abbrev first : Preferred
first = record { name = []; port = 0; prio = 9999 }

chosen-preferred : (o : Option SrvRecord) → chosen (preferred (first) o) ≡ server_of o
unfolding chosen
chosen-preferred none = refl
chosen-preferred (some s) = ground arith

-- Given a response that holds its questions and the records, in this form, the parser gives the
-- target and port of the record with the lowest priority below 9999, the first of several, and
-- nothing if there is none or that target is empty.
pub parse_srv_response-lowest :
    (response : Response) (records : List SrvRecord) (pos : ℕ) (buf : Text)
    → QuestionsAt response response.qdcount 12 pos
    → AnswersAt response pos records
    → response.ancount ≡ length records
    → parse_srv_response response buf ≡ server_of (lowest 9999 records)
unfolding parse_srv_response
parse_srv_response-lowest response records pos buf questions answers count =
    let begin = skip_questions response response.qdcount 12 buf in
    ap (λ n. chosen (read_answers response n begin.0 begin.1 first)) count
    ∙ ap (λ p. chosen (read_answers response (length records) p begin.1 first))
        (skip_questions_lem response response.qdcount 12 pos buf questions)
    ∙ ap chosen (read_answers_lem response records pos begin.1 first answers)
    ∙ chosen-preferred (lowest 9999 records)

-- Every record has at least that priority.
abbrev pub AtLeast : ℕ → List SrvRecord → Type 0
AtLeast p records = (j : ℕ) (t : SrvRecord) → get_elem? records j ≡ some t → p ≤ t.priority

-- It is one of the records, below the limit, and none has a lower priority.
abbrev pub IsLowest : ℕ → List SrvRecord → SrvRecord → Type 0
IsLowest limit records s =
    (s.priority < limit) × ((i : ℕ) × (get_elem? records i ≡ some s)) × AtLeast s.priority records

AtLeast-cons :
    (p : ℕ) (r : SrvRecord) (rest : List SrvRecord)
    → p ≤ r.priority
    → AtLeast p rest
    → AtLeast p (r ∷ rest)
AtLeast-cons p r rest h more zero t e =
    let same : r.priority ≡ t.priority = cc in omega (arith, same)
AtLeast-cons p r rest h more (suc j) t e = more j t e

-- What the first record does to the choice.
lowest_cons :
    (limit : ℕ) (r : SrvRecord) (rest : List SrvRecord)
    → ((r.priority < limit)
        × ((b : SrvRecord) × (lowest r.priority rest ≡ some b)
            × (lowest limit (r ∷ rest) ≡ some b)))
      ⊎ ((r.priority < limit)
          × (lowest r.priority rest ≡ none)
          × (lowest limit (r ∷ rest) ≡ some r))
      ⊎ ((limit ≤ r.priority) × (lowest limit (r ∷ rest) ≡ lowest limit rest))
lowest_cons limit r rest = elim (Bool-cases (ltb r.priority limit)) [
  | inl less ↦ elim (Option-cases (lowest r.priority rest)) [
    | inl n ↦ inr (inl (omega tests, n, rw (less, n) refl))
    | inr (b, e) ↦ inl (omega tests, (b, e, rw (less, e) refl))
  ]
  | inr not_less ↦ inr (inr (ground arith, rw not_less refl))
]

lowest-none :
    (limit : ℕ) (records : List SrvRecord) → lowest limit records ≡ none → AtLeast limit records
lowest-none limit [] h = λ j t e. cc
lowest-none limit (r ∷ rest) h = elim (lowest_cons limit r rest) [
  | inl (_, (b, _, found)) ↦ cc
  | inr (inl (_, _, found)) ↦ cc
  | inr (inr (high, found)) ↦
      AtLeast-cons limit r rest high (lowest-none limit rest (sym found ∙ h))
]

lowest-IsLowest :
    (limit : ℕ) (records : List SrvRecord) (s : SrvRecord)
    → lowest limit records ≡ some s
    → IsLowest limit records s
lowest-IsLowest limit [] s h = cc
lowest-IsLowest limit (r ∷ rest) s h = elim (lowest_cons limit r rest) [
  | inl (less, (b, e, found)) ↦
      let (below, (i, at), least) = lowest-IsLowest r.priority rest s (e ∙ sym found ∙ h) in
      (omega arith, (suc i, at), AtLeast-cons s.priority r rest (omega arith) least)
  | inr (inl (less, e, found)) ↦
      let same : r ≡ s = cc in
      let least = lowest-none r.priority rest e in
      subst (IsLowest limit (r ∷ rest)) same
        (less, (0, refl), AtLeast-cons r.priority r rest (omega arith) least)
  | inr (inr (high, found)) ↦
      let (below, (i, at), least) = lowest-IsLowest limit rest s (sym found ∙ h) in
      (below, (suc i, at), AtLeast-cons s.priority r rest (omega arith) least)
]

server_of-cases :
    (o : Option SrvRecord) (server : Text) (port : ℕ)
    → server_of o ≡ some (server, port)
    → (s : SrvRecord) × (o ≡ some s) × (s.target ≡ server) × (s.port ≡ port)
server_of-cases none server port h = cc
server_of-cases (some s) server port h = (s, refl, ground arith, ground arith)

-- The server and port that are found, in a response as above, are those of one of the records, and
-- no record has a lower priority.
pub parse_srv_response-least :
    (response : Response) (records : List SrvRecord) (pos : ℕ) (buf server : Text) (port : ℕ)
    → QuestionsAt response response.qdcount 12 pos
    → AnswersAt response pos records
    → response.ancount ≡ length records
    → parse_srv_response response buf ≡ some (server, port)
    → (s : SrvRecord) × (i : ℕ) × (get_elem? records i ≡ some s)
      × (s.target ≡ server)
      × (s.port ≡ port)
      × AtLeast s.priority records
parse_srv_response-least response records pos buf server port questions answers count h =
    let found =
      sym (parse_srv_response-lowest response records pos buf questions answers count) ∙ h in
    let (s, e, target, its_port) = server_of-cases (lowest 9999 records) server port found in
    let (_, (i, at), least) = lowest-IsLowest 9999 records s e in
    (s, i, at, target, its_port, least)
