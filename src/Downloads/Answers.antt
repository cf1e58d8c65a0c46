-- ===== src/Downloads/Answers.antt =====
-- A round of a request ends with a response or an exception, so what the code returns is the answer of
-- the redirects, and Get returns a text.
use render_studio_kit.Shared.{
  ℕ, zero, suc, ◌≤◌, Bool, true, false, ◌≡◌, ◌≢◌, refl, sym, ◌∙◌, ap, [], Option, none, some,
  if◌then◌else◌, subst,
}
use render_studio_kit.Shared.Texts.{Text}
use render_studio_kit.Networking.Url.{parse, encode}
use render_studio_kit.Downloads.Host.{
  Host, Verb, get, Response, World, Step, Outcome, done, thrown, terminated, undefined, out_of_fuel,
  return, throw, next, caught, try_or, on_network, answered, ◌>>=◌,
}
use render_studio_kit.Downloads.FileUtils.{listed}
use render_studio_kit.Downloads.RestClient.{
  Parameters, http_impl, tcp_impl, ssl_impl, shut_down, is_clean, is_redirect, respond,
  request_impl, client_get, error_text,
}
use render_studio_kit.Downloads.Redirects.{
  Replies, answer, failure, redirect, rounds, round, after_round, request_impl-Replies,
}

module _ ⦃h : Host⦄ where
  open h use {
    Endpoints, Stream, Network, shutdown, uri_parse, set_host_name, connect, resolve, handshake,
  }

  -- A value or an exception
  abbrev pub Ended : {A : Type 0} → Outcome A → Type 0
  Ended (done a) = Unit {0}
  Ended thrown = Unit {0}
  Ended terminated = ⊥
  Ended undefined = ⊥
  Ended out_of_fuel = ⊥

  abbrev Ends : {A : Type 0} → Step A → Type 0
  Ends m = (w : World) → Ended ((m w).0)

  next-Ends :
      {A B : Type 0} (r : Outcome A × World) (f : A → Step B)
      → Ended r.0
      → ((a : A) → Ends (f a))
      → Ended ((next r f).0)
  next-Ends (done a, w) f e k = k a w
  next-Ends (thrown, w) f e k = tt
  next-Ends (terminated, w) f e k = e
  next-Ends (undefined, w) f e k = e
  next-Ends (out_of_fuel, w) f e k = e

  bind-Ends :
      {A B : Type 0} (m : Step A) (f : A → Step B)
      → Ends m
      → ((a : A) → Ends (f a))
      → Ends (m >>= f)
  unfolding ◌>>=◌
  bind-Ends m f e k w = next-Ends (m w) f (e w) k

  answered-Ends : {A : Type 0} (o : Option A) → Ended (answered o)
  answered-Ends none = tt
  answered-Ends (some a) = tt

  on_network-Ends : {A : Type 0} (f : Network → Option A × Network) → Ends (on_network f)
  unfolding on_network
  on_network-Ends f w = answered-Ends ((f w.network).0)

  listed-Ends : {A : Type 0} (o : Option A) → Ends (listed o)
  listed-Ends none w = tt
  listed-Ends (some a) w = tt

  if-Ends : {A : Type 0} (b : Bool) (m n : Step A) → Ends m → Ends n → Ends (if b then m else n)
  if-Ends true m n p q = p
  if-Ends false m n p q = q

  shut_down-Ends : (stream : Stream) → Ends (shut_down stream)
  unfolding shut_down
  shut_down-Ends stream w =
      if-Ends (is_clean ((shutdown stream w.network).0)) (return tt) throw (λ v. tt) (λ v. tt) _

  respond-Ends :
      (request : Text) (verb : Verb) (body : Text) (parameters : Parameters)
      → Ends (respond request verb body parameters)
  unfolding respond ssl_impl tcp_impl http_impl
  respond-Ends request verb body parameters =
      bind-Ends _ _ (listed-Ends (parse uri_parse request)) (λ url.
        bind-Ends _ _ (on_network-Ends (resolve url.host url.port)) (λ results.
          if-Ends url.ssl _ _
            (bind-Ends _ _ (if-Ends (set_host_name url.host) (return tt) throw (λ v. tt) (λ v. tt))
              (λ named. bind-Ends _ _ (on_network-Ends (connect results)) (λ stream.
                bind-Ends _ _ (on_network-Ends (handshake url.host stream)) (λ secured.
                  bind-Ends _ _ (on_network-Ends _)
                    (λ response. bind-Ends _ _ (shut_down-Ends secured) (λ ended v. tt))))))
            (bind-Ends _ _ (on_network-Ends (connect results))
              (λ stream. bind-Ends _ _ (on_network-Ends _) (λ response v. tt)))))

  module _ (verb : Verb) (body : Text) (parameters : Parameters) where
    abbrev Reply : Text → World → Outcome Text → World → Type 0
    Reply = Replies verb body parameters

    -- What follows the response of a round
    abbrev follow : ℕ → Response → Step Text
    follow fuel r =
        if is_redirect r.status
        then request_impl fuel r.location verb body parameters
        else return r.body

    followed :
        (fuel : ℕ) (request : Text) (w v w' : World) (r : Response) (o : Outcome Text)
        → round verb body parameters request w ≡ (done r, v)
        → (b : Bool) → is_redirect r.status ≡ b
        → ((if b then request_impl fuel r.location verb body parameters else return r.body) v)
          ≡ (o, w')
        → (request_impl fuel r.location verb body parameters v ≡ (o, w') → Reply r.location v o w')
        → Reply request w o w'
    followed fuel request w v w' r o e true s run ih = redirect e s (ih run)
    followed fuel request w v w' r o e false s run ih =
        subst (λ (x : Outcome Text × World). Reply request w x.0 x.1) run (answer e s)

    from_round :
        (fuel : ℕ) (request : Text) (w w' : World) (o : Outcome Text) (x : Outcome Response × World)
        → round verb body parameters request w ≡ x
        → Ended x.0
        → next x (follow fuel) ≡ (o, w')
        → ((next_request : Text) (v : World)
            → request_impl fuel next_request verb body parameters v ≡ (o, w')
            → Reply next_request v o w')
        → Reply request w o w'
    from_round fuel request w w' o (done r, v) e ended run ih =
        followed fuel request w v w' r o e (is_redirect r.status) refl run (ih r.location v)
    from_round fuel request w w' o (thrown, v) e ended run ih =
        subst (λ (x : Outcome Text × World). Reply request w x.0 x.1) run (failure e)
    from_round fuel request w w' o (terminated, v) e ended run ih = absurd ended
    from_round fuel request w w' o (undefined, v) e ended run ih = absurd ended
    from_round fuel request w w' o (out_of_fuel, v) e ended run ih = absurd ended

    -- What the code returns before its fuel is used up is the answer.
    pub request_impl-answers :
        (fuel : ℕ) (request : Text) (w w' : World) (o : Outcome Text)
        → o ≢ out_of_fuel
        → request_impl fuel request verb body parameters w ≡ (o, w')
        → Reply request w o w'
    unfolding request_impl
    request_impl-answers zero request w w' o ne run =
        absurd (ne (sym (ap (λ (x : Outcome Text × World). x.0) run)))
    request_impl-answers (suc fuel) request w w' o ne run =
        let x = round verb body parameters request w in
        from_round fuel request w w' o x refl (respond-Ends request verb body parameters w)
          (sym (after_round verb body parameters fuel request w x.1 x.0 refl) ∙ run)
          (λ next_request v r. request_impl-answers fuel next_request v w' o ne r)

  -- What Get makes of an answer
  unfoldable pub text_or_error : Outcome Text → Text
  text_or_error (done s) = s
  text_or_error _ = error_text

  caught-text :
      (r : Outcome Text × World) → Ended r.0 → caught error_text r ≡ (done (text_or_error r.0), r.1)
  unfolding text_or_error
  caught-text (done s, w) e = refl
  caught-text (thrown, w) e = refl
  caught-text (terminated, w) e = absurd e
  caught-text (undefined, w) e = absurd e
  caught-text (out_of_fuel, w) e = absurd e

  Replies-Ended :
      {verb : Verb} {body : Text} {parameters : Parameters} {request : Text} {w w' : World}
      {o : Outcome Text}
      → Replies verb body parameters request w o w'
      → Ended o
  Replies-Ended (answer e s) = tt
  Replies-Ended (failure e) = tt
  Replies-Ended (redirect e s reply) = Replies-Ended reply

  -- Get, with fuel for the redirects, returns the body of the answer to the encoded request, and the
  -- text "[Error]" when a round throws; it never throws.
  pub client_get-Replies :
      (parameters : Parameters) (request : Text) (w w' : World) (o : Outcome Text)
      (reply : Replies get [] parameters (encode request) w o w') (fuel : ℕ)
      → rounds get [] parameters reply ≤ fuel
      → client_get fuel parameters request w ≡ (done (text_or_error o), w')
  unfolding client_get try_or
  client_get-Replies parameters request w w' o reply fuel enough =
      ap (caught error_text) (request_impl-Replies get [] parameters reply fuel enough)
      ∙ caught-text (o, w') (Replies-Ended reply)
