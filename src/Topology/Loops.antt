-- ===== src/Topology/Loops.antt =====
-- topology_validation.go: actions in sequence and loops, by what they leave on the broker.
use go_rabbitmq.Base.{
  ◌≡◌, refl, sym, subst, inl, inr, String, Bool, true, false, Option, none, some, List, [], ◌∷◌,
  Bool-cases, if_fails, if_holds, if_either,
}
use mathlib.Core.Option.{some-injective}
use go_rabbitmq.Base.Eq.{String_eq}
use go_rabbitmq.Topology.Registry.{find, TopologyRegistry}
use go_rabbitmq.Topology.Broker.{
  Item, Queue, Broker, World, Result, ok, err, Action, Done, pure, fail, ◌>>=◌, ◌>>◌, or_fail,
  demand, track, for_each_logged,
}
use go_rabbitmq.Topology.Grows.{Grows, AlwaysGrows, logged_Grows}

-- Whatever its answer, the action leaves the item.
pub record Leaves {ℓ} (B : Broker) {A : Type ℓ} (m : Action B A) (i : Item) : Type ℓ where
  pub leaves : (w : World B) → B.has (m w).1.state i ≡ true

module _ {B : Broker} where
  bound_ok {ℓ κ} :
      {A : Type ℓ} {C : Type κ} (f : A → Action B C) (w : World B) (p : Result A × World B) (a : A)
      → p.0 ≡ ok a
      → ((λ _. p) >>= f) w ≡ f a p.1
  unfolding ◌>>=◌
  bound_ok f w (ok b, w') a e = cc
  bound_ok f w (err b, w') a e = cc

  -- A first action that succeeds hands its world on.
  pub >>=-ok {ℓ κ} :
      {A : Type ℓ} {C : Type κ} (m : Action B A) (f : A → Action B C) (w : World B) (a : A)
      → (m w).0 ≡ ok a
      → (m >>= f) w ≡ f a (m w).1
  unfolding ◌>>=◌
  >>=-ok m f w a e = bound_ok f w (m w) a e

  after_Grows {ℓ κ} :
      {A : Type ℓ} {C : Type κ} (f : A → Action B C) (i : Item) (w : World B)
      (p : Result A × World B)
      → B.has p.1.state i ≡ true
      → ((a : A) → AlwaysGrows B (f a))
      → B.has (((λ _. p) >>= f) w).1.state i ≡ true
  unfolding ◌>>=◌ fail
  after_Grows f i w (ok a, w') h g = ((g a).grows w').kept i h
  after_Grows f i w (err e, w') h g = h

  -- What the first action leaves stays.
  pub has->>= {ℓ κ} :
      {A : Type ℓ} {C : Type κ} (m : Action B A) (f : A → Action B C) (i : Item) (w : World B)
      → B.has (m w).1.state i ≡ true
      → ((a : A) → AlwaysGrows B (f a))
      → B.has ((m >>= f) w).1.state i ≡ true
  unfolding ◌>>=◌
  has->>= m f i w h g = after_Grows f i w (m w) h g

  pub track-has :
      (f : TopologyRegistry → TopologyRegistry) (i : Item) (w : World B)
      → B.has w.state i ≡ true
      → B.has (track f w).1.state i ≡ true
  unfolding track
  track-has f i w h = if_either (λ (v : World B). B.has v.state i ≡ true) w.tracked _ w h h

  pub declared-has :
      (f : TopologyRegistry → TopologyRegistry) (i : Item) (o : Option Queue) (w : World B)
      → B.has w.state i ≡ true
      → B.has ((or_fail o >>= λ d. track f >> pure d) w).1.state i ≡ true
  unfolding ◌>>=◌ or_fail pure fail track
  declared-has f i none w h = h
  declared-has f i (some q) w h = track-has f i w h

  pub demanded-has :
      (f : TopologyRegistry → TopologyRegistry) (i : Item) (b : Bool) (w : World B)
      → B.has w.state i ≡ true
      → B.has ((demand b >> track f) w).1.state i ≡ true
  unfolding ◌>>=◌ demand pure fail track
  demanded-has f i false w h = h
  demanded-has f i true w h = track-has f i w h

  -- A loop that only logs errors leaves the item of an element whose turn leaves it, where what the turn
  -- needs is not lost in the turns before.
  pub loop-has {ℓ} :
      {A : Type ℓ} (f : A → Action B Done) (key : A → String) (item : A → Item)
      (P : A → World B → Type 0)
      → ((a : A) → AlwaysGrows B (f a))
      → ((a : A) (v w : World B) → Grows v w → P a v → P a w)
      → ((a : A) (w : World B) → P a w → B.has (f a w).1.state (item a) ≡ true)
      → (k : String) (xs : List A) (a : A) (w : World B) → find key k xs ≡ some a
      → P a w
      → B.has (for_each_logged f xs w).1.state (item a) ≡ true
  unfolding find for_each_logged
  loop-has f key item P g s t k [] a w e p = cc
  loop-has f key item P g s t k (y ∷ ys) a w e p = elim (Bool-cases (String_eq.beq (key y) k)) [
    | inl h ↦ (logged_Grows f g ys (f y w).1).kept (item a) (
        subst (λ z. B.has (f z w).1.state (item a) ≡ true)
          (sym
            (some-injective y a (if_holds (λ o. o ≡ some a → some y ≡ some a) _ _ _ h (λ q. q) e)))
          (t a w p))
    | inr h ↦
        loop-has f key item P g s t k ys a (f y w).1
          (if_fails (λ o. o ≡ some a → find key k ys ≡ some a) _ _ _ h (λ q. q) e)
          (s a w (f y w).1 ((g y).grows w) p)
  ]

  pub logged-ok {ℓ} :
      {A : Type ℓ} (f : A → Action B Done) (xs : List A) (w : World B)
      → (for_each_logged f xs w).0 ≡ ok tt
  unfolding for_each_logged
  logged-ok f [] w = refl
  logged-ok f (x ∷ xs) w = logged-ok f xs (f x w).1
