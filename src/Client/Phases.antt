-- ===== src/Client/Phases.antt =====
-- client.go, Client.Do and handleAuthRetry: the order of effects.
use httpc.Prelude.{
  String, ◌≡◌, ◌⊎◌, refl, inl, inr, Option, none, List, [], ◌∷◌, ◌++◌, arith, Option-cases,
}
use httpc.Prelude.Text.{Text}
use httpc.Errors.{Err, Result, ok, err, Result-cases}
use httpc.Client.{
  Response, Request, Returned, Backend, Client, Event, gauge_up, gauge_down, sent, sent_again,
  closed_body, panicked, limit_body, respond, respond_again, replay, handle_auth_retry, authorize,
  conclude,
}

-- Where a call of Do is: before the gauge, under it, after retry_do, after http_do, and after the gauge; any other
-- order of effects is wrong.
pub data Phase : Type 0 where
  before counted awaited repeated over wrong : Phase

abbrev pub next : Phase → Event → Phase
next before gauge_up = counted
next counted (sent req) = awaited
next counted gauge_down = over
next awaited (sent_again req) = repeated
next awaited (closed_body b) = awaited
next awaited panicked = awaited
next awaited gauge_down = over
next repeated (closed_body b) = repeated
next repeated gauge_down = over
next _ _ = wrong

unfoldable pub phase : Phase → List Event → Phase
phase at [] = at
phase at (e ∷ es) = phase (next at e) es

pub phase-append : (at : Phase) (xs ys : List Event) → phase at (xs ++ ys) ≡ phase (phase at xs) ys
unfolding phase
phase-append at [] ys = refl
phase-append at (x ∷ xs) ys = phase-append (next at x) xs ys

module _ (backend : Backend) (c : Client) where
  respond-stays :
      (m : String) (e : Option Err) (r : Response)
      → (phase awaited (respond backend c m e r).0 ≡ awaited)
        × (phase repeated (respond backend c m e r).0 ≡ repeated)
  unfolding phase respond
  respond-stays m e r = ground arith

  respond_again-stays : (o : Returned) → phase repeated (respond_again backend c o).0 ≡ repeated
  unfolding phase
  respond_again-stays o = elim (Option-cases o.response) [
    | inl e ↦ ground arith
    | inr (r, e) ↦ ground (arith, respond-stays "response hook failed after auth retry" none r)
  ]

  abbrev pub IsAsked : List Event → Type 0
  IsAsked es = (phase awaited es ≡ awaited) ⊎ (phase awaited es ≡ repeated)

  retry-IsAsked :
      (a : Result Text) (req : Request) (r : Response)
      → IsAsked (handle_auth_retry backend c a req r).0
  unfolding phase handle_auth_retry
  retry-IsAsked (err e) req r = inl refl
  retry-IsAsked (ok header) req r = elim (Result-cases (replay backend c req header)) [
    | inl (a, e) ↦
        let last = respond_again-stays (limit_body c.max_response_body_size (backend.http_do a)) in
        ground (arith, e, last)
    | inr (a, e) ↦ ground (arith, e)
  ]

  authorize-IsAsked : (req : Request) (o : Returned) → IsAsked (authorize backend c req o).0
  unfolding phase authorize
  authorize-IsAsked req o = elim (Option-cases c.on_unauthorized) [
    | inl e ↦ ground arith
    | inr (a, e) ↦ elim (Option-cases o.response) [
      | inl f ↦ ground arith
      | inr (r, f) ↦ ground (arith, retry-IsAsked a req r)
    ]
  ]

  pub conclude-IsAsked : (req : Request) (o : Returned) → IsAsked (conclude backend c req o).0
  unfolding phase conclude
  conclude-IsAsked req o = elim (Option-cases o.response) [
    | inl f ↦ ground arith
    | inr (r, f) ↦
        let stays = respond-stays "response hook failed" o.failure r in
        let o' = (respond backend c "response hook failed" o.failure r).1 in
        let events = (respond backend c "response hook failed" o.failure r).0 in
        let more = (authorize backend c req o').0 in
        ground (arith, stays, authorize-IsAsked req o', phase-append awaited events more)
  ]
