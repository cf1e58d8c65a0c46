-- ===== src/Networking/WorkspacePings.antt =====
-- Sources/Networking/Workspace.cpp: when the workspace is pinged.
use render_studio_kit.Shared.{
  ℕ, zero, suc, ◌+◌, ◌≡◌, ◌≢◌, ◌⊎◌, inl, inr, refl, Bool, true, false, not, some, Option-cases, ap,
  if◌then◌else◌, arith,
}
use render_studio_kit.Networking.Workspace.{
  Role, Workspace, System, drop_client, is_refused, attempt, launch, connect,
}

-- The task that pings runs exactly if there is a client that connected.
abbrev pub IsPinged : Workspace → Type 0
IsPinged w =
    ((w.ping_task ≡ some true) × (w.client ≡ some true))
    ⊎ ((w.ping_task ≡ some false) × (w.client ≢ some true))

abbrev IsSilent : Workspace → Type 0
IsSilent w = (w.ping_task ≡ some false) × (w.client ≢ some true)

if-IsPinged :
    (b : Bool) (x y : Workspace)
    → (b ≡ true → IsPinged x)
    → (b ≡ false → IsPinged y)
    → IsPinged (if b then x else y)
if-IsPinged true x y h k = h refl
if-IsPinged false x y h k = k refl

drop_client-unconnected : (w : Workspace) → (drop_client w).client ≢ some true
drop_client-unconnected w e = elim (Option-cases w.client) [
  | inl f ↦ ground arith
  | inr (c, f) ↦ ground arith
]

attempt-IsPinged :
    (system : System) (more n : ℕ) (w : Workspace) → IsSilent w → IsPinged (attempt system more n w)
unfolding attempt
attempt-IsPinged system zero n w h = inr h
attempt-IsPinged system (suc more) n w h =
    let w' = record w { client = some (system.connects n) } in
    if-IsPinged (system.connects n) (record w' { ping_task = some true })
      (attempt system more (n + 1) w') (λ e. inl (refl, ap some e))
      (λ e. attempt-IsPinged system more (n + 1) w' (h.0, λ f. ground arith))

launch-IsPinged : (system : System) (w : Workspace) → IsSilent w → IsPinged (launch system w)
unfolding launch
launch-IsPinged system w h =
    if-IsPinged system.launches (attempt system 5 1 (drop_client w)) w
      (λ e. attempt-IsPinged system 5 1 (drop_client w) (h.0, drop_client-unconnected w))
      (λ e. inr h)

-- After Connect, for every role, however often attempts fail and whatever the system answers, the task
-- that pings runs exactly if the client is connected.
connect-IsPinged :
    (system : System) (role : Role) (w : Workspace) → IsPinged (connect system role w)
unfolding connect
connect-IsPinged system role w =
    let w1 = drop_client (record w { ping_task = some false }) in
    let found = record w1 { client = some (system.connects 0) } in
    let silent : IsSilent w1 =
      (refl, drop_client-unconnected (record w { ping_task = some false })) in
    let connected = record found { ping_task = some true } in
    let otherwise = if system.connects 0 then connected else launch system found in
    if-IsPinged (is_refused system role w1) w1
      (if not system.port_in_use then launch system w1 else otherwise) (λ e. inr silent)
      (λ e.
        if-IsPinged (not system.port_in_use) (launch system w1) otherwise
          (λ f. launch-IsPinged system w1 silent)
          (λ f.
            if-IsPinged (system.connects 0) connected (launch system found)
              (λ g. inl (refl, ap some g))
              (λ g. launch-IsPinged system found (refl, λ k. ground arith))))
