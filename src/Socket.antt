-- ===== src/Socket.antt =====
-- loudmouth/lm-old-socket.c: a socket, what it writes and what it reads.
pub mod Connect
pub mod Drain
pub mod Open
pub mod Order
pub mod Early
pub mod Output
pub mod Silence
pub mod Input
pub mod Attempts
use loudmouth.Base.{
  ℕ, zero, suc, ◌+◌, Bool, true, false, not, ◌&&◌, List, [], ◌∷◌, ◌++◌, Option, none, some, Text,
  length, take, drop, ltb, if◌then◌else◌,
}
use loudmouth.Resolver.{Addrinfo, Resolver}
use loudmouth.Proxy.{Proxy}

-- The sources that a socket adds to the main loop.
pub data Watch : Type 0 where
  watch_in watch_err watch_hup watch_connect watch_proxy watch_out : Watch

-- `LmDisconnectReason`, as far as a socket gives it.
pub data Reason : Type 0 where
  hup error unknown : Reason

-- `struct LmConnectData`, without what leads back to the socket. A channel is known by its file
-- descriptor, and -1 is `none`.
pub record ConnectData : Type 0 where
  pub current_addr : Option Addrinfo
  pub fd : Option ℕ
  pub io_channel : Option ℕ

-- Of `struct _LmOldSocket`. A pointer to a source is only there or not; `ssl` says if it is for
-- StartTLS.
pub record Socket : Type 0 where
  pub domain : Text
  pub server : Option Text
  pub port : ℕ
  pub ssl : Option Bool
  pub ssl_started : Bool
  pub proxy : Option Proxy
  pub io_channel : Option ℕ
  pub has_watch_in : Bool
  pub has_watch_err : Bool
  pub has_watch_hup : Bool
  pub fd : Option ℕ
  pub has_watch_connect : Bool
  pub cancel_open : Bool
  pub has_watch_out : Bool
  pub out_buf : Option Text
  pub connect_data : Option ConnectData
  pub ref_count : ℕ
  pub resolver : Option Resolver

-- What it does: bytes that are sent, sources, descriptors that are closed, once by the call on the
-- descriptor and once with its channel, the end of SSL, and the calls of `data_func`, `closed_func`
-- and `connect_func`. It also connects to an address and a port, starts a look-up, lets go of the
-- resolver, is freed, and aborts the program.
pub data Effect : Type 0 where
  sends : Text → Effect
  adds destroys : Watch → Effect
  tries : Addrinfo → ℕ → Effect
  looks_up unrefs_resolver frees aborts : Effect
  closes_fd closes_channel shuts_down : ℕ → Effect
  closes_ssl : Effect
  gets : Text → Effect
  tells_closed : Reason → Effect
  tells_connected : Bool → Effect

-- `GIOStatus`
pub data Status : Type 0 where
  normal eof status_error again : Status

-- What `g_io_channel_write_chars` gives, called until it is not `G_IO_STATUS_AGAIN`, which it comes
-- to be: the status and the number of bytes.
pub data Tries : Type 0 where
  once_more : Tries → Tries
  settled : Status → ℕ → Tries

-- How the two ways to write answer to a text; `none` is -1.
pub record Channel : Type 0 where
  pub write_chars : Text → Tries
  pub ssl_send : Text → Option ℕ

-- The loop of `old_socket_do_write`.
unfoldable pub settle : Tries → Option ℕ
settle (once_more later) = settle later
settle (settled normal n) = some n
settle (settled _ n) = none

-- `old_socket_do_write`
unfoldable pub do_write : Socket → Channel → Text → Option ℕ
unfolding settle
do_write socket channel buf =
    if socket.ssl_started then channel.ssl_send buf else settle (channel.write_chars buf)

-- `old_socket_output_is_buffered`: `none` for `FALSE`.
unfoldable pub output_is_buffered : Socket → Text → Option Socket
output_is_buffered socket buffer = elim socket.out_buf [
  | none ↦ none
  | some out_buf ↦ some (record socket { out_buf = some (out_buf ++ buffer) })
]

-- `old_socket_setup_output_buffer`
unfoldable pub setup_output_buffer : Socket → Text → Socket × List Effect
setup_output_buffer socket buffer =
    (record socket { out_buf = some buffer; has_watch_out = true }, adds watch_out ∷ [])

-- `lm_old_socket_write` after `old_socket_do_write`.
unfoldable pub written : Socket → Text → Option ℕ → Socket × Option ℕ × List Effect
unfolding setup_output_buffer
written socket buf none = (socket, none, [])
written socket buf (some b_written) =
    let (buffering, effects) = setup_output_buffer socket (drop b_written buf) in
    if ltb b_written (length buf)
    then (buffering, some (length buf), sends (take b_written buf) ∷ effects)
    else (socket, some b_written, sends (take b_written buf) ∷ [])

-- `lm_old_socket_write` of a whole text: `none` is -1.
unfoldable pub write : Socket → Channel → Text → Socket × Option ℕ × List Effect
unfolding output_is_buffered do_write written
write socket channel buf = elim (output_is_buffered socket buf) [
  | some buffering ↦ (buffering, some (length buf), [])
  | none ↦ written socket buf (do_write socket channel buf)
]

-- `if (watch) { g_source_destroy (watch); watch = NULL; }`, what it does.
abbrev pub destroy_if : Bool → Watch → List Effect
destroy_if b w = if b then destroys w ∷ [] else []

-- `socket_buffered_write_cb` after `g_string_erase`, with the bytes written and what is left.
unfoldable pub erased : Socket → Text → Text → Socket × List Effect × Bool
erased socket bytes [] = (
  record socket { has_watch_out = false; out_buf = none },
  sends bytes ∷ destroy_if socket.has_watch_out watch_out,
  false,
)
erased socket bytes (c ∷ rest) =
    (record socket { out_buf = some (c ∷ rest) }, sends bytes ∷ [], true)

-- `socket_buffered_write_cb` after `old_socket_do_write` of `out_buf`.
unfoldable pub flushed : Socket → Text → Option ℕ → Socket × List Effect × Bool
unfolding erased
flushed socket out_buf none = (socket, tells_closed error ∷ [], false)
flushed socket out_buf (some b_written) =
    erased socket (take b_written out_buf) (drop b_written out_buf)

-- `socket_buffered_write_cb`, and if its source is kept.
unfoldable pub buffered_write_cb : Socket → Channel → Socket × List Effect × Bool
unfolding flushed do_write
buffered_write_cb socket channel = elim socket.out_buf [
  | none ↦ (socket, [], false)
  | some out_buf ↦ flushed socket out_buf (do_write socket channel out_buf)
]

-- What `g_io_channel_read_chars` or `_lm_ssl_read` give, until it is not `G_IO_STATUS_NORMAL`.
pub data Reads : Type 0 where
  got : Text → Reads → Reads
  stopped : Status → Reads

-- `socket_read_incoming` where it gives `FALSE`: the reason of a hang-up, if it is one.
unfoldable pub hangup_reason : Status → Option Reason
hangup_reason eof = some hup
hangup_reason again = none
hangup_reason status_error = some error
hangup_reason normal = some unknown

-- The loop of `socket_in_event`: `read_anything`, what is done, and how it ends.
unfoldable pub read_all : Bool → Reads → Bool × List Effect × Option Reason
unfolding hangup_reason
read_all read_anything (stopped status) = (read_anything, [], hangup_reason status)
read_all read_anything (got buf reads) =
    let (anything, effects, reason) = read_all true reads in (anything, gets buf ∷ effects, reason)

-- `socket_in_event` after the loop, with `hangup` and `reason` in one.
unfoldable pub read_up : Bool → List Effect → Option Reason → List Effect × Bool
read_up read_anything effects none = (effects, true)
read_up true effects (some reason) = (effects, true)
read_up false effects (some reason) = (effects ++ tells_closed reason ∷ [], false)

-- `socket_in_event`: what it does, and if its source is kept. `data_func` does not close the socket.
unfoldable pub in_event : Socket → Reads → List Effect × Bool
unfolding read_all read_up
in_event socket reads = elim socket.io_channel [
  | none ↦ ([], false)
  | some _ ↦
      let (read_anything, effects, reason) = read_all false reads in
      read_up read_anything effects reason
]

-- `socket_hup_event`
unfoldable pub hup_event : Socket → List Effect × Bool
hup_event socket = elim socket.io_channel [
  | none ↦ ([], false)
  | some _ ↦ (tells_closed hup ∷ [], true)
]

-- `socket_error_event`
unfoldable pub error_event : Socket → List Effect × Bool
error_event socket = elim socket.io_channel [
  | none ↦ ([], false)
  | some _ ↦ (tells_closed error ∷ [], true)
]
