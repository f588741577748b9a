-- ===== src/Rpc/Cut.antt =====
-- examples/rpc/RpcChannel.cpp: a stream of messages, cut anywhere.
use ecron.Prelude.{
  List, Option, [], ap, append_assoc, arith, inl, inr, length, length-append, refl, sym, ℕ, ◌++◌,
  ◌<◌, ◌∙◌, ◌∷◌, ◌≡◌, ◌⊎◌,
}
use Prim.{tt}
use ecron.Rpc.Frame.{packed}
use ecron.Rpc.Stream.{Fits, IsPart, begun, short, wire}
use ecron.Rpc.{Codec}

-- A list with two divisions: where the first ends first, or where it does not.
divide :
    {A : Type 0} (p w xs ys : List A)
    → p ++ w ≡ xs ++ ys
    → ((more : List A) × (xs ++ more ≡ p) × (0 < length more) × (ys ≡ more ++ w))
      ⊎ ((more : List A) × (xs ≡ p ++ more) × (w ≡ more ++ ys))
divide [] w xs ys e = inr (xs, refl, e)
divide (a ∷ p) w [] ys e = inl (a ∷ p, refl, omega arith, sym e)
divide (a ∷ p) w (x ∷ xs) ys e =
    let same : a ≡ x = cc in
    let rest : p ++ w ≡ xs ++ ys = cc in
    elim (divide p w xs ys rest) [ inl r ↦ inl (r.0, cc, r.2, r.3) | inr r ↦ inr (r.0, cc, r.2) ]

module _ {Meta Message : Type 0} (k : Codec Meta Message) where
  -- What the bytes before and behind the cut are.
  pub record Cut (ps : List (Meta × Option Message)) (xs ys : List ℕ) : Type 0 where
    pub front : List (Meta × Option Message)
    pub back : List (Meta × Option Message)
    pub rest : List ℕ
    pub both : ps ≡ front ++ back
    pub before : xs ≡ wire k front ++ rest
    pub behind : wire k back ≡ rest ++ ys
    pub part : IsPart k rest
    pub front_fits : Fits k front
    pub back_fits : Fits k back
    pub finished : ys ≡ [] → back ≡ []

  pub cut :
      (ps : List (Meta × Option Message)) (xs ys : List ℕ)
      → Fits k ps
      → wire k ps ≡ xs ++ ys
      → Cut ps xs ys
  unfolding wire
  cut [] xs ys fits e = record {
    front = [];
    back = [];
    rest = xs;
    both = refl;
    before = refl;
    behind = e;
    part = short (omega (arith, length-append xs ys, ap length e));
    front_fits = tt;
    back_fits = tt;
    finished = λ h. refl;
  }
  cut (p ∷ ps) xs ys fits e = elim (divide (packed k p.0 p.1) (wire k ps) xs ys e) [
    | inl r ↦ record {
      front = [];
      back = p ∷ ps;
      rest = xs;
      both = refl;
      before = refl;
      behind = e;
      part = begun p.0 p.1 r.0 r.1 r.2 fits.0;
      front_fits = tt;
      back_fits = fits;
      finished =
          λ h. absurd (omega (arith, r.2, ap length (sym r.3 ∙ h), length-append r.0 (wire k ps)));
    }
    | inr r ↦
        let c = cut ps r.0 ys fits.1 r.2 in
        record {
          front = p ∷ c.front;
          back = c.back;
          rest = c.rest;
          both = ap (λ l. p ∷ l) c.both;
          before =
              r.1
              ∙ ap (λ l. packed k p.0 p.1 ++ l) c.before
              ∙ sym (append_assoc (packed k p.0 p.1) (wire k c.front) c.rest);
          behind = c.behind;
          part = c.part;
          front_fits = (fits.0, c.front_fits);
          back_fits = c.back_fits;
          finished = c.finished;
        }
  ]
