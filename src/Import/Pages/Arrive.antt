-- ===== src/Import/Pages/Arrive.antt =====
-- The page messages that arrive at handle_page_transfer, one by one and in order.
use mattx.Base.{ℕ, ◌≡◌, refl, ◌∙◌, List, [], ◌∷◌, ◌++◌, Bool, true, ◌&&◌, some, is_some, arith}
use mattx.Migr.Effects.{Effect, send, page_transfer}
use mattx.Migr.AddressSpace.{AddressSpace}
use mattx.Import.Pages.{Arriving, inject, handle_page_transfer}

-- Whether pages are expected: a blueprint and a task to fill.
abbrev pub expects : Arriving → Bool
expects s = is_some s.pending_migration && is_some s.hijacked_stub_task

module _ (a : AddressSpace) where
  -- One message that arrives, and all of them in order.
  unfoldable pub arrive : Effect → Arriving × a.Space → Arriving × a.Space
  arrive (send link (page_transfer x bs)) (s, m) = handle_page_transfer a s m (some (x, bs))
  arrive _ s = s

  unfoldable pub receive : List Effect → Arriving × a.Space → Arriving × a.Space
  receive [] s = s
  receive (e ∷ es) s = receive es (arrive e s)

  pub receive-append :
      (es fs : List Effect) (s : Arriving × a.Space)
      → receive (es ++ fs) s ≡ receive fs (receive es s)
  unfolding receive
  receive-append [] fs s = refl
  receive-append (e ∷ es) fs s = receive-append es fs (arrive e s)

  expects-arrive : (e : Effect) (s : Arriving × a.Space) → expects (arrive e s).0 ≡ expects s.0
  unfolding arrive handle_page_transfer
  expects-arrive (send link (page_transfer x bs)) s = ground arith
  expects-arrive _ s = refl

  pub expects-receive :
      (es : List Effect) (s : Arriving × a.Space) → expects (receive es s).0 ≡ expects s.0
  unfolding receive
  expects-receive [] s = refl
  expects-receive (e ∷ es) s = expects-receive es (arrive e s) ∙ expects-arrive e s

  pub arrive_page :
      (s : Arriving × a.Space) (link x y : ℕ) (bs : List ℕ)
      → expects s.0 ≡ true
      → a.byte_at (arrive (send link (page_transfer x bs)) s).1 y
        ≡ a.byte_at (inject a s.1 x bs).0 y
  unfolding arrive handle_page_transfer
  arrive_page (s, m) link x y bs e = rw (arrive, e) refl
