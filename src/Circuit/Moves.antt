-- ===== src/Circuit/Moves.antt =====
-- How the generations of `ProviderCircuitBreaker` in src/executionReliability.ts move on.
use workflow_mcp.Common.{
  ◌+◌, ◌≤◌, ◌<◌, ◌≡◌, ◌≢◌, refl, sym, ◌∙◌, subst, true, false, List, [], ◌∷◌, arith, All, All-map,
  Pairwise, Pairwise-weaken, Along, All-Along, Pairwise-Along,
}
use workflow_mcp.Circuit.{Circuit, Lease, Gate}

-- A lease of the present generation is the probe of a half-open circuit, or one of a closed circuit.
pub record Fits (c : Circuit) (l : Lease) : Type 0 where
  pub bound : l.generation ≤ c.generation
  pub probe : l.generation ≡ c.generation → l.probe ≡ true → c.half_open_probe ≡ true
  pub ordinary : l.generation ≡ c.generation → l.probe ≡ false → c.open_until ≡ 0

-- Not both are probes of the present generation.
abbrev pub OneProbe : Circuit → Lease → Lease → Type 0
OneProbe c a b =
    a.probe ≡ true → a.generation ≡ c.generation → b.probe ≡ true → b.generation ≢ c.generation

pub record Fenced (g : Gate) : Type 0 where
  pub probe_open : g.circuit.half_open_probe ≡ true → g.circuit.open_until ≢ 0
  pub leases : All (Fits g.circuit) g.leases
  pub single : Pairwise (OneProbe g.circuit) g.leases

-- Nothing that the leases depend on changed, or all leases are of an earlier generation.
pub data Moves (c d : Circuit) : Type 0 where
  stays :
      d.generation ≡ c.generation
      → d.half_open_probe ≡ c.half_open_probe
      → d.open_until ≡ c.open_until
      → Moves c d
  bumps : d.generation ≡ c.generation + 1 → d.half_open_probe ≡ false → Moves c d

-- A lease keeps its kind and its generation.
pub record SameLease (x y : Lease) : Type 0 where
  pub probe : y.probe ≡ x.probe
  pub generation : y.generation ≡ x.generation

pub SameLease-refl : (x : Lease) → SameLease x x
SameLease-refl x = record { probe = refl; generation = refl }

Moves-Fits : (c d : Circuit) (x y : Lease) → Moves c d → SameLease x y → Fits c x → Fits d y
Moves-Fits c d x y (stays g h o) e f = record {
  bound = omega (arith, e.generation, g, f.bound);
  probe = λ p q. h ∙ f.probe (sym e.generation ∙ p ∙ g) (sym e.probe ∙ q);
  ordinary = λ p q. o ∙ f.ordinary (sym e.generation ∙ p ∙ g) (sym e.probe ∙ q);
}
Moves-Fits c d x y (bumps g h) e f = record {
  bound = omega (arith, e.generation, g, f.bound);
  probe = λ p q. absurd (omega (arith, e.generation, g, f.bound, p));
  ordinary = λ p q. absurd (omega (arith, e.generation, g, f.bound, p));
}

-- Where every lease is of an earlier generation, there is no probe of the present one.
earlier-single :
    (d : Circuit) (ls : List Lease)
    → All (λ l. l.generation < d.generation) ls
    → Pairwise (OneProbe d) ls
earlier-single d [] h = tt
earlier-single d (l ∷ ls) h =
    (All-map (λ x b p q p' q'. omega (arith, b, q')) ls h.1, earlier-single d ls h.1)

Moves-single :
    (c d : Circuit) (xs ys : List Lease)
    → Moves c d
    → Along SameLease xs ys
    → All (Fits c) xs
    → Pairwise (OneProbe c) xs
    → Pairwise (OneProbe d) ys
Moves-single c d xs ys (stays g h o) e f s =
    Pairwise-Along SameLease (OneProbe d)
      (λ x y z w e f r p q p' q'.
        r (sym e.probe ∙ p) (sym e.generation ∙ q) (sym f.probe ∙ p') (sym f.generation ∙ q'))
      xs ys e
      (Pairwise-weaken (OneProbe c) (OneProbe d) (λ x y r p q p' q'. r p (q ∙ g) p' (q' ∙ g)) xs s)
Moves-single c d xs ys (bumps g h) e f s = earlier-single d ys (
    All-Along SameLease (λ l. l.generation < d.generation)
      (λ x y e b. omega (arith, e.generation, b)) xs ys e
      (All-map (λ x b. omega (arith, g, b.bound)) xs f))

Moves-open :
    (c d : Circuit)
    → Moves c d
    → (c.half_open_probe ≡ true → c.open_until ≢ 0)
    → d.half_open_probe ≡ true
    → d.open_until ≢ 0
Moves-open c d (stays g h o) f p q = f (sym h ∙ p) (sym o ∙ q)
Moves-open c d (bumps g h) f p q = cc (h, p)

Fits-Same : {d : Circuit} (x y : Lease) → SameLease x y → Fits d x → Fits d y
Fits-Same {d} x y e f = Moves-Fits d d x y (stays refl refl refl) e f

pub Moves-Fenced :
    (g : Gate) (d : Circuit) (ls : List Lease)
    → Moves g.circuit d
    → Along SameLease g.leases ls
    → Fenced g
    → Fenced (record { circuit = d; leases = ls })
Moves-Fenced g d ls m e f = record {
  probe_open = Moves-open g.circuit d m f.probe_open;
  leases =
      All-Along SameLease (Fits d) Fits-Same g.leases ls e
        (All-map (λ x. Moves-Fits g.circuit d x x m (SameLease-refl x)) g.leases f.leases);
  single = Moves-single g.circuit d g.leases ls m e f.leases f.single;
}

stays_put : (c d : Circuit) → c ≡ d → Moves c d
stays_put c d e = subst (Moves c) e (stays refl refl refl)
