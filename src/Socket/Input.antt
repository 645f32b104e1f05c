-- ===== src/Socket/Input.antt =====
-- What a socket reads and when it tells a hang-up: loudmouth/lm-old-socket.c.
use loudmouth.Base.{
  ℕ, ◌≡◌, refl, ap, ◌∙◌, Bool, true, false, List, [], ◌∷◌, map, Option, none, some, Text,
  if◌then◌else◌,
}
use loudmouth.Socket.{
  Socket, Effect, gets, tells_closed, Status, Reads, got, stopped, Reason, hangup_reason, read_all,
  read_up, in_event,
}

-- The texts that are read and the status that ends it.
abbrev pub texts_of : Reads → List Text
texts_of (stopped status) = []
texts_of (got buf reads) = buf ∷ texts_of reads

abbrev pub end_of : Reads → Status
end_of (stopped status) = status
end_of (got buf reads) = end_of reads

-- Whether anything is read.
abbrev pub reads_any : Reads → Bool
reads_any (stopped status) = false
reads_any (got buf reads) = true

-- What a hang-up makes of a socket from which nothing was read, and if its source is kept.
abbrev pub hang_up : Option Reason → List Effect × Bool
hang_up none = ([], true)
hang_up (some reason) = (tells_closed reason ∷ [], false)

read_all_on :
    (reads : Reads)
    → read_all true reads ≡ (true, map gets (texts_of reads), hangup_reason (end_of reads))
unfolding read_all
read_all_on (stopped status) = refl
read_all_on (got buf reads) = rw (read_all_on reads) refl

read_up-true : (es : List Effect) (reason : Option Reason) → read_up true es reason ≡ (es, true)
unfolding read_up
read_up-true es none = refl
read_up-true es (some reason) = refl

read_up-hang_up : (reason : Option Reason) → read_up false [] reason ≡ hang_up reason
unfolding read_up
read_up-hang_up none = refl
read_up-hang_up (some reason) = refl

-- A socket hands over all that there is to read, in order. A hang-up is told, and its source
-- removed, exactly when there was nothing to read before it: else it waits for the next event.
pub in_event-hang_up :
    (socket : Socket) (reads : Reads) (fd : ℕ)
    → socket.io_channel ≡ some fd
    → in_event socket reads ≡ (
        if reads_any reads
        then (map gets (texts_of reads), true)
        else hang_up (hangup_reason (end_of reads)))
unfolding in_event read_all
in_event-hang_up socket (stopped status) fd e = rw e (read_up-hang_up (hangup_reason status))
in_event-hang_up socket (got buf reads) fd e = rw e (
    ap (λ (anything, es, reason). read_up anything (gets buf ∷ es) reason) (read_all_on reads)
    ∙ read_up-true (gets buf ∷ map gets (texts_of reads)) (hangup_reason (end_of reads)))
