-- ===== src/Socket/Silence.antt =====
-- What a kind of effect is done, in order, by all that a socket does; closing it and letting it go
-- does nothing of a kind that the program or the net see.
use mathlib.Core.List.{append_assoc, append-nil}
use loudmouth.Base.{
  ℕ, ◌-◌, ◌≡◌, refl, sym, ap, ◌∙◌, Bool, true, false, List, [], ◌∷◌, ◌++◌, Option, none, some,
  if◌then◌else◌, ◌==◌,
}
use loudmouth.Resolver.{Resolver}
use loudmouth.Socket.{
  Socket, Effect, Watch, destroys, unrefs_resolver, frees, closes_channel, closes_ssl,
  tells_connected, destroy_if, watch_connect, watch_in, watch_err, watch_hup, watch_out,
}
use loudmouth.Socket.Connect.{
  close, close_io, close_ssl_if, close_channel_if, unref, unref_resolver_if, ran_out,
}

module _ {A : Type 0} where
  abbrev pub all_of : (Effect → List A) → List Effect → List A
  all_of by [] = []
  all_of by (e ∷ es) = by e ++ all_of by es

  -- A kind of effect that is none of those of closing.
  abbrev pub IsOpenKind : (Effect → List A) → Type 0
  IsOpenKind by =
      ((w : Watch) → by (destroys w) ≡ [])
      × ((fd : ℕ) → by (closes_channel fd) ≡ [])
      × (by unrefs_resolver ≡ [])
      × (by frees ≡ [])
      × (by closes_ssl ≡ [])

module _ {A : Type 0} (by : Effect → List A) where
  pub all_of-append : (a b : List Effect) → all_of by (a ++ b) ≡ all_of by a ++ all_of by b
  all_of-append [] b = refl
  all_of-append (e ∷ a) b =
      ap (λ ts. by e ++ ts) (all_of-append a b)
      ∙ sym (append_assoc (by e) (all_of by a) (all_of by b))

  -- Nothing of the kind is done.
  abbrev pub IsSilent : List Effect → Type 0
  IsSilent es = all_of by es ≡ []

  -- What is silent changes nothing.
  pub after_silent :
      (a es : List Effect) (ts : List A) → IsSilent a → all_of by es ≡ ts → all_of by (a ++ es) ≡ ts
  after_silent a es ts h k = rw (all_of-append a es, h) k

  one-IsSilent : (e : Effect) → by e ≡ [] → IsSilent (e ∷ [])
  one-IsSilent e h = rw h refl

module _ {A : Type 0} (by : Effect → List A) (kind : IsOpenKind by) where
  pub destroy_if-IsSilent : (b : Bool) (w : Watch) → IsSilent by (destroy_if b w)
  destroy_if-IsSilent true w = one-IsSilent by (destroys w) (kind.0 w)
  destroy_if-IsSilent false w = refl

  pub close_channel_if-IsSilent : (fd : Option ℕ) → IsSilent by (close_channel_if fd)
  close_channel_if-IsSilent none = refl
  close_channel_if-IsSilent (some fd) = one-IsSilent by (closes_channel fd) (kind.1 fd)

  pub unref_resolver_if-IsSilent : (r : Option Resolver) → IsSilent by (unref_resolver_if r)
  unref_resolver_if-IsSilent none = refl
  unref_resolver_if-IsSilent (some r) = one-IsSilent by unrefs_resolver kind.2

  close_ssl_if-IsSilent : (ssl : Option Bool) → IsSilent by (close_ssl_if ssl)
  close_ssl_if-IsSilent none = refl
  close_ssl_if-IsSilent (some _) = one-IsSilent by closes_ssl kind.4

  close_io-IsSilent : (socket : Socket) (fd : Option ℕ) → IsSilent by (close_io socket fd).1
  unfolding close_io
  close_io-IsSilent socket none = refl
  close_io-IsSilent socket (some fd) =
      let w_in = destroy_if socket.has_watch_in watch_in in
      let w_err = destroy_if socket.has_watch_err watch_err in
      let w_hup = destroy_if socket.has_watch_hup watch_hup in
      let w_out = destroy_if socket.has_watch_out watch_out in
      after_silent by w_in _ [] (destroy_if-IsSilent socket.has_watch_in watch_in) (
        after_silent by w_err _ [] (destroy_if-IsSilent socket.has_watch_err watch_err) (
          after_silent by w_hup _ [] (destroy_if-IsSilent socket.has_watch_hup watch_hup) (
            after_silent by w_out _ [] (destroy_if-IsSilent socket.has_watch_out watch_out)
              (one-IsSilent by (closes_channel fd) (kind.1 fd)))))

  pub close-IsSilent : (socket : Socket) → IsSilent by (close socket).1
  unfolding close
  close-IsSilent socket =
      let quiet = record socket { has_watch_connect = false; connect_data = none } in
      after_silent by (destroy_if socket.has_watch_connect watch_connect) _ []
        (destroy_if-IsSilent socket.has_watch_connect watch_connect)
        (after_silent by (close_io quiet socket.io_channel).1 (close_ssl_if socket.ssl) []
          (close_io-IsSilent quiet socket.io_channel) (close_ssl_if-IsSilent socket.ssl))

  freed-IsSilent : (b : Bool) → IsSilent by (if b then frees ∷ [] else [])
  freed-IsSilent true = one-IsSilent by frees kind.3
  freed-IsSilent false = refl

  pub unref-IsSilent : (socket : Socket) → IsSilent by (unref socket).1
  unfolding unref
  unref-IsSilent socket = freed-IsSilent (socket.ref_count - 1 == 0)

  -- Giving up is silent but for what `connect_func` is told.
  pub after-ran_out :
      (closes : Bool) (socket : Socket)
      → all_of by (ran_out closes socket).1 ≡ by (tells_connected false)
  unfolding ran_out
  after-ran_out true socket =
      ap (λ ts. by (tells_connected false) ++ ts)
        (after_silent by (close socket).1 (unref (close socket).0).1 [] (close-IsSilent socket)
          (unref-IsSilent (close socket).0))
      ∙ append-nil (by (tells_connected false))
  after-ran_out false socket =
      let idle = record socket { connect_data = none } in
      ap (λ ts. by (tells_connected false) ++ ts)
        (after_silent by (unref_resolver_if socket.resolver) (unref idle).1 []
          (unref_resolver_if-IsSilent socket.resolver) (unref-IsSilent idle))
      ∙ append-nil (by (tells_connected false))
