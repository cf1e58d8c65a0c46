-- ===== src/Downloads/Uuid.antt =====
-- Sources/Utils/Uuid.cpp: identifiers made of random digits. The generator is a parameter.
use render_studio_kit.Shared.{ℕ, zero, suc, ◌+◌, [], ◌∷◌, ◌++◌, if◌then◌else◌, ltb}
use render_studio_kit.Shared.Texts.{Text, codes}
use render_studio_kit.Downloads.Host.{Host, Step, done}

-- ss << std::hex << n for a number below 16
abbrev pub hex : ℕ → ℕ
hex n = if ltb n 10 then b'0' + n else 87 + n

module _ ⦃h : Host⦄ where
  open h use {Generator, seed, digit, variant}

  -- for (i = 0; i < n; i++) ss << dis(gen)
  unfoldable pub digits : ℕ → Generator → Text × Generator
  digits zero g = ([], g)
  digits (suc n) g = let d = digit g in let rest = digits n d.1 in (hex d.0 ∷ rest.0, rest.1)

  -- GenerateUUID, with a generator of its own
  unfoldable pub uuid_of : Generator → Text
  uuid_of g =
      let a = digits 8 g in
      let b = digits 4 a.1 in
      let c = digits 3 b.1 in
      let v = variant c.1 in
      let d = digits 3 v.1 in
      let e = digits 12 d.1 in
      a.0
      ++ (codes "-"
          ++ (b.0
              ++ (codes "-4" ++ (c.0 ++ (codes "-" ++ (hex v.0 ∷ (d.0 ++ (codes "-" ++ e.0))))))))

  unfoldable pub generate_uuid : Step Text
  generate_uuid w = let s = seed w.entropy in (done (uuid_of s.0), record w { entropy = s.1 })
