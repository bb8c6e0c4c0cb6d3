-- ===== src/Proto/Topology/Shared.antt =====
-- What a run of declarations leaves behind on the broker of crates/coldbore-proto/src/topology.rs.
use cold_bore.Base.{◌≡◌, refl, subst, List, [], ◌∷◌, Result, ok, err, ◌>>=◌, All}
use cold_bore.Proto.Topology.{Declaration, Broker, declare_all}

module _ (b : Broker) where
  -- A call that returned: how the next state came about.
  abbrev the_ok : b.State → Result b.State b.Error
  the_ok x = ok x

  bind_ok :
      (r : Result b.State b.Error) (k : b.State → Result b.State b.Error) (s' : b.State)
      → (r >>= k) ≡ ok s'
      → (m : b.State) × (r ≡ ok m) × (k m ≡ ok s')
  bind_ok (ok m) k s' h = (m, refl, h)
  bind_ok (err e) k s' h = cc

  ok_injective : (x y : b.State) → the_ok x ≡ the_ok y → x ≡ y
  ok_injective x y e = cc

  all_keep :
      (ds : List Declaration) (d : Declaration) (s s' : b.State)
      → declare_all b ds s ≡ ok s'
      → b.Has s d
      → b.Has s' d
  unfolding declare_all
  all_keep [] d s s' h there = subst (λ t. b.Has t d) (ok_injective s s' h) there
  all_keep (c ∷ ds) d s s' h there =
      let (m, first, rest) = bind_ok (b.declare c s) (λ t. declare_all b ds t) s' h in
      all_keep ds d m s' rest (b.keeps c d s m first there)

  -- Once they all succeeded, everything is there.
  pub All-there :
      (ds : List Declaration) (s s' : b.State) → declare_all b ds s ≡ ok s' → All (b.Has s') ds
  unfolding declare_all
  All-there [] s s' h = tt
  All-there (d ∷ ds) s s' h =
      let (m, first, rest) = bind_ok (b.declare d s) (λ t. declare_all b ds t) s' h in
      (all_keep ds d m s' rest (b.declares d s m first), All-there ds m s' rest)

  -- What is there is declared again without effect.
  pub All-again :
      (ds : List Declaration) (s : b.State) → All (b.Has s) ds → declare_all b ds s ≡ ok s
  unfolding declare_all
  All-again [] s there = refl
  All-again (d ∷ ds) s there = rw (b.again d s there.0) (All-again ds s there.1)
