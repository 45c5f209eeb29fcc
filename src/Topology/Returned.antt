-- ===== src/Topology/Returned.antt =====
-- admin.go: what an action that returns no error has done.
use go_rabbitmq.Topology.Loops.{track-has}
use go_rabbitmq.Base.{
  ◌≡◌, refl, sym, subst, Bool, true, false, Option, none, some, List, [], ◌∷◌, is_some, if_either,
  All,
}
use go_rabbitmq.Topology.Registry.{TopologyRegistry}
use go_rabbitmq.Topology.Broker.{
  Item, Queue, Broker, World, Result, ok, err, Action, Done, pure, fail, ◌>>=◌, ◌>>◌, or_fail,
  on_channel, demand, track, for_each,
}
use go_rabbitmq.Topology.Grows.{Grows, AlwaysGrows, for_each-AlwaysGrows}

-- If it returns no error, the action leaves the item.
pub record Ensures {ℓ} (B : Broker) {A : Type ℓ} (m : Action B A) (i : Item) : Type ℓ where
  pub ensures : (w : World B) (a : A) → (m w).0 ≡ ok a → B.has (m w).1.state i ≡ true

-- What an action that returns no error has done: its parts returned none.
module _ {B : Broker} where
  from_bound {ℓ κ} :
      {A : Type ℓ} {C : Type κ} (f : A → Action B C) (w : World B) (p : Result A × World B) (c : C)
      → (((λ _. p) >>= f) w).0 ≡ ok c
      → (a : A) × (p.0 ≡ ok a) × ((f a p.1).0 ≡ ok c) × ((((λ _. p) >>= f) w).1 ≡ (f a p.1).1)
  unfolding ◌>>=◌ fail
  from_bound f w (ok a, w') c e = (a, refl, e, refl)
  from_bound f w (err e', w') c e = cc

  pub >>=-returned {ℓ κ} :
      {A : Type ℓ} {C : Type κ} (m : Action B A) (f : A → Action B C) (w : World B) (c : C)
      → ((m >>= f) w).0 ≡ ok c
      → (a : A) × ((m w).0 ≡ ok a) × ((f a (m w).1).0 ≡ ok c) × (((m >>= f) w).1 ≡ (f a (m w).1).1)
  unfolding ◌>>=◌
  >>=-returned m f w c e = from_bound f w (m w) c e

  pub declared-ensures :
      (f : TopologyRegistry → TopologyRegistry) (i : Item) (o : Option Queue) (w : World B)
      (a : Queue)
      → (is_some o ≡ true → B.has w.state i ≡ true)
      → ((or_fail o >>= λ d. track f >> pure d) w).0 ≡ ok a
      → B.has ((or_fail o >>= λ d. track f >> pure d) w).1.state i ≡ true
  unfolding ◌>>=◌ or_fail pure fail track
  declared-ensures f i none w a h e = cc
  declared-ensures f i (some q) w a h e = track-has f i w (h refl)

  pub demanded-ensures :
      (f : TopologyRegistry → TopologyRegistry) (i : Item) (b : Bool) (w : World B) (a : Done)
      → (b ≡ true → B.has w.state i ≡ true)
      → ((demand b >> track f) w).0 ≡ ok a
      → B.has ((demand b >> track f) w).1.state i ≡ true
  unfolding ◌>>=◌ demand pure fail track
  demanded-ensures f i false w a h e = cc
  demanded-ensures f i true w a h e = track-has f i w (h refl)

  pub opened-Ensures {ℓ κ} :
      {C : Type ℓ} {D : Type κ} (f : B.State → C × B.State) (k : C → Action B D) (i : Item)
      → ((w : World B) (d : D)
          → let v = record w { state = (f w.state).1 } in
            (k (f w.state).0 v).0 ≡ ok d → B.has (k (f w.state).0 v).1.state i ≡ true)
      → Ensures B (on_channel f >>= k) i
  unfolding on_channel ◌>>=◌ fail
  opened-Ensures {C = C} f k i h = record {
    ensures = λ w d.
        if_either
          (λ (p : Result C × World B).
            (((λ _. p) >>= k) w).0 ≡ ok d → B.has (((λ _. p) >>= k) w).1.state i ≡ true)
          (B.has_channel w.state) _ _ (h w d) (λ e. cc);
  }

  -- A loop that stops at the first error has made every item if it returns none.
  pub for_each-Ensures {ℓ} :
      {A : Type ℓ} (f : A → Action B Done) (item : A → Item)
      → ((a : A) → AlwaysGrows B (f a))
      → ((a : A) → Ensures B (f a) (item a))
      → (xs : List A) (w : World B) (d : Done) → (for_each f xs w).0 ≡ ok d
      → All (λ a. B.has (for_each f xs w).1.state (item a) ≡ true) xs
  unfolding for_each
  for_each-Ensures f item g s [] w d e = tt
  for_each-Ensures {A = A} f item g s (x ∷ xs) w d e =
      let (c, first, rest, same) = >>=-returned (f x) (λ _. for_each f xs) w d e in
      let v = (f x w).1 in
      subst (λ (u : World B). All (λ a. B.has u.state (item a) ≡ true) (x ∷ xs)) (sym same)
        (
          ((for_each-AlwaysGrows g xs).grows v).kept (item x) ((s x).ensures w c first),
          for_each-Ensures f item g s xs v d rest,
        )

  pub All-Grows {ℓ} :
      {A : Type ℓ} (item : A → Item) (v w : World B) (xs : List A)
      → Grows v w
      → All (λ a. B.has v.state (item a) ≡ true) xs
      → All (λ a. B.has w.state (item a) ≡ true) xs
  All-Grows item v w [] g h = tt
  All-Grows item v w (x ∷ xs) g (h, hs) = (g.kept (item x) h, All-Grows item v w xs g hs)
