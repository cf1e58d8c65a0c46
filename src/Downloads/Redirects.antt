-- ===== src/Downloads/Redirects.antt =====
-- What a request gives when its redirects are followed without a bound, and what the bounded recursion
-- gives.
use render_studio_kit.Shared.{
  ℕ, zero, suc, ◌≤◌, true, false, ◌≡◌, refl, ◌∙◌, ap, if◌then◌else◌, arith,
}
use render_studio_kit.Shared.Texts.{Text}
use render_studio_kit.Downloads.Host.{
  Host, Verb, Response, World, Outcome, done, thrown, out_of_fuel, return, next, ◌>>=◌,
}
use render_studio_kit.Downloads.RestClient.{Parameters, is_redirect, respond, request_impl}

module _ ⦃h : Host⦄ (verb : Verb) (body : Text) (parameters : Parameters) where
  -- One request with its response
  abbrev pub round : Text → World → Outcome Response × World
  round request w = respond request verb body parameters w

  -- The answer to a request: the body of the first response that is no redirect, where a redirect is
  -- a request for its location in the world that the response left, or the exception of a round.
  pub data Replies : Text → World → Outcome Text → World → Type 0 where
    answer :
        {request : Text} {w w' : World} {r : Response}
        → round request w ≡ (done r, w')
        → is_redirect r.status ≡ false
        → Replies request w (done r.body) w'
    failure :
        {request : Text} {w w' : World}
        → round request w ≡ (thrown, w')
        → Replies request w thrown w'
    redirect :
        {request : Text} {w w' w'' : World} {r : Response} {o : Outcome Text}
        → round request w ≡ (done r, w')
        → is_redirect r.status ≡ true
        → Replies r.location w' o w''
        → Replies request w o w''

  -- The rounds that an answer takes
  unfoldable pub rounds :
      {request : Text} {w w' : World} {o : Outcome Text} → Replies request w o w' → ℕ
  rounds (answer e s) = 1
  rounds (failure e) = 1
  rounds (redirect e s reply) = suc (rounds reply)

  pub after_round :
      (fuel : ℕ) (request : Text) (w w' : World) (o : Outcome Response)
      → round request w ≡ (o, w')
      → request_impl (suc fuel) request verb body parameters w
        ≡ next
            (o, w')
            (λ r.
              if is_redirect r.status
              then request_impl fuel r.location verb body parameters
              else return r.body)
  unfolding request_impl ◌>>=◌
  after_round fuel request w w' o e = rw e refl

  -- With fuel for its rounds, the code gives the answer.
  pub request_impl-Replies :
      {request : Text} {w w' : World} {o : Outcome Text} (reply : Replies request w o w') (fuel : ℕ)
      → rounds reply ≤ fuel
      → request_impl fuel request verb body parameters w ≡ (o, w')
  unfolding rounds
  request_impl-Replies (answer e s) zero enough = absurd (omega arith)
  request_impl-Replies (answer {request} {w} {w'} {r} e s) (suc fuel) enough =
      after_round fuel request w w' (done r) e ∙ rw s refl
  request_impl-Replies (failure e) zero enough = absurd (omega arith)
  request_impl-Replies (failure {request} {w} {w'} e) (suc fuel) enough =
      after_round fuel request w w' thrown e
  request_impl-Replies (redirect e s reply) zero enough = absurd (omega arith)
  request_impl-Replies (redirect {request} {w} {w'} {w''} {r} {o} e s reply) (suc fuel) enough =
      after_round fuel request w w' (done r) e
      ∙ rw s (request_impl-Replies reply fuel (omega arith))

  -- Requests that are answered with redirects to each other for ever use up any fuel: the recursion of
  -- the code does not end.
  pub request_impl-endless :
      (S : Text → World → Type 0)
      → ((request : Text) (w : World)
          → S request w
          → (r : Response) × (w' : World) × (round request w ≡ (done r, w'))
            × (is_redirect r.status ≡ true)
            × S r.location w')
      → (fuel : ℕ) (request : Text) (w : World) → S request w
      → (request_impl fuel request verb body parameters w).0 ≡ out_of_fuel
  unfolding request_impl
  request_impl-endless S closed zero request w s = refl
  request_impl-endless S closed (suc fuel) request w s =
      let (r, w', e, redirected, s') = closed request w s in
      ap (λ (x : Outcome Text × World). x.0) (after_round fuel request w w' (done r) e)
      ∙ rw redirected (request_impl-endless S closed fuel r.location w' s')
