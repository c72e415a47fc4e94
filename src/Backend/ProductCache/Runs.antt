-- ===== src/Backend/ProductCache/Runs.antt =====
-- `LoadConfiguration` on every branch, and runs of the operations of the cache.
use tactmon.Prelude.{
  ℕ, ◌+◌, ◌≡◌, refl, sym, ap, ◌∙◌, ◌⊎◌, inl, inr, Bool, true, false, ◌||◌, none, some, List, [],
  ◌∷◌, ◌++◌, arith, Bytes, leb, ◌==◌, if◌then◌else◌, Bool-cases, Option-cases, All-append, Result,
  ok,
}
use tactmon.Backend.Product.{Build}
use tactmon.Backend.ProductCache.{
  Record, ProductCache, keep_record, keep_records, remove_expired_entries, find_factory,
  register_factory, load_new, load_configuration,
}
use tactmon.Backend.ProductCache.Builds.{
  ids, is_member, AreDistinct, IsIdle, join_loaded-none, join_loaded-Joined, join_loaded-Kept,
  succeeds, throws_out, loads, Loaded, load_new-Loaded,
}
use mathlib.Core.List.{append-nil}
use mathlib.Core.Path.{subst}

-- A record with `IsSound` products: no build twice, and nothing being loaded.
pub record IsSound (c : ProductCache) : Type 0 where
  pub distinct : AreDistinct (ids c.products)
  pub idle : IsIdle c.products

pub ids-append : (rs qs : List Record) → ids (rs ++ qs) ≡ ids rs ++ ids qs
unfolding ids
ids-append [] qs = refl
ids-append (r ∷ rs) qs = ap (λ ns. r.product.current_build.id ∷ ns) (ids-append rs qs)

pub is_member-append :
    (n m : ℕ) (ns : List ℕ) → is_member n (ns ++ (m ∷ [])) ≡ (is_member n ns || m == n)
unfolding is_member
is_member-append n m [] = ground arith
is_member-append n m (k ∷ ns) = ground (arith, is_member-append n m ns)

AreDistinct-append :
    (m : ℕ) (ns : List ℕ) → is_member m ns ≡ false → AreDistinct ns → AreDistinct (ns ++ (m ∷ []))
unfolding is_member
AreDistinct-append m [] h d = (refl, tt)
AreDistinct-append m (k ∷ ns) h (e, d) =
    let rest : is_member m ns ≡ false = ground (arith, h) in
    let other : (m == k) ≡ false = ground (arith, h) in
    (is_member-append k m ns ∙ rw (e, other) refl, AreDistinct-append m ns rest d)

-- What is kept has builds that were there.
pub keep_records-absent :
    (now n : ℕ) (rs : List Record)
    → is_member n (ids rs) ≡ false
    → is_member n (ids (keep_records now rs)) ≡ false
unfolding keep_records keep_record is_member ids
keep_records-absent now n [] h = refl
keep_records-absent now n (r ∷ rs) h = ground (arith, keep_records-absent now n rs)

keep_records-AreDistinct :
    (now : ℕ) (rs : List Record) → AreDistinct (ids rs) → AreDistinct (ids (keep_records now rs))
unfolding keep_records keep_record ids
keep_records-AreDistinct now [] d = tt
keep_records-AreDistinct now (r ∷ rs) (e, d) =
    let ih = keep_records-AreDistinct now rs d in
    let a = keep_records-absent now r.product.current_build.id rs e in
    elim (Bool-cases (leb r.expiration now)) [
      | inr l ↦ rw (l, keep_records) (a, ih)
      | inl l ↦ elim (Bool-cases r.product.is_loading) [
        | inl k ↦ rw (l, k, keep_records) (a, ih)
        | inr k ↦ rw (l, k, keep_records) ih
      ]
    ]

register_factory-products :
    (name : Bytes) (f : ℕ) (c : ProductCache) → (register_factory name f c).products ≡ c.products
unfolding register_factory
register_factory-products name f c = elim (Option-cases (find_factory name c.factories)) [
  | inl unknown ↦ rw (unknown, register_factory) refl
  | inr (g, known) ↦ rw (known, register_factory) refl
]

-- What happens to a cache after it was made.
pub data Operation : Type 0 where
  load_config : Bytes → Build → ℕ → ℕ → ℕ → Operation
  remove_expired : ℕ → Operation
  register : Bytes → ℕ → Operation

module _ (load : ℕ → Bytes → Bytes → Result Bool) where
  -- What `LoadConfiguration` ends in where no product is being loaded.
  unfoldable pub serves : Bytes → Build → ProductCache → Result Bool
  serves name b c =
      if is_member b.id (ids c.products)
      then ok true
      else elim (find_factory name c.factories) [ none ↦ ok false | some f ↦ loads load f b ]

  loaded-ids :
      {factory : ℕ} {b : Build} {handler now : ℕ} {c : ProductCache}
      (l : Loaded load factory b handler now c)
      → ids (load_new load factory b handler now c).0.products ≡ ids c.products ++ (b.id ∷ [])
  unfolding ids
  loaded-ids {c} l =
      ap ids l.products_eq
      ∙ ids-append c.products (l.added ∷ [])
      ∙ ap (λ n. ids c.products ++ (n ∷ [])) l.id_eq

  abbrev pub Serves : Bytes → Build → ℕ → ProductCache → ProductCache × Result Bool → Type 0
  Serves name b handler c out =
      (out.1 ≡ serves name b c)
      × (out.0.calls ≡ c.calls ++ (if succeeds (serves name b c) then (handler, b.id) ∷ [] else []))
      × AreDistinct (ids out.0.products)
      × ((throws_out (serves name b c) ≡ true) ⊎ IsSound out.0)

  added_once :
      {factory : ℕ} {b : Build} {handler now : ℕ} {c : ProductCache}
      (l : Loaded load factory b handler now c)
      → is_member b.id (ids c.products) ≡ false
      → AreDistinct (ids c.products)
      → AreDistinct (ids (load_new load factory b handler now c).0.products)
  added_once {b = b} {c = c} l new d =
      subst AreDistinct (sym (loaded-ids l)) (AreDistinct-append b.id (ids c.products) new d)

  -- On a sound cache, `LoadConfiguration` returns true exactly where the build is in the cache, or
  -- the product has a factory and is loaded; then it calls the handler, once, on that build, and
  -- else no handler at all. It throws where the loading does. No build is in the cache twice then,
  -- and the cache stays sound unless the loading throws.
  pub load_configuration-Serves :
      (name : Bytes) (b : Build) (handler lifetime now : ℕ) (c : ProductCache)
      → IsSound c
      → Serves name b handler c (load_configuration load name b handler lifetime now c)
  unfolding load_configuration serves succeeds throws_out
  load_configuration-Serves name b handler lifetime now c s =
      elim (Bool-cases (is_member b.id (ids c.products))) [
        | inl here ↦
            let j = join_loaded-Joined b.id handler (now + lifetime) c.products s.idle here in
            let d = subst AreDistinct (sym j.ids_eq) s.distinct in
            rw (here, j.join_eq, load_configuration)
              (refl, refl, d, inr (record { distinct = d; idle = j.idle }))
        | inr new ↦
            rw
              (
                new,
                join_loaded-none b.id handler (now + lifetime) c.products new,
                load_configuration,
              )
              (elim (Option-cases (find_factory name c.factories)) [
                | inl unknown ↦
                    rw (unknown, load_configuration)
                      (refl, sym (append-nil c.calls), s.distinct, inr s)
                | inr (factory, known) ↦
                    let l = load_new-Loaded load factory b handler now c in
                    let d = added_once l new s.distinct in
                    rw (known, load_configuration)
                      (
                        l.result,
                        l.calls_eq,
                        d,
                        elim (Bool-cases (throws_out (loads load factory b))) [
                          | inl t ↦ inl t
                          | inr t ↦ inr (record {
                            distinct = d;
                            idle = rw l.products_eq (
                                All-append _ c.products (l.added ∷ []) s.idle
                                  (l.loading_eq ∙ t, tt));
                          })
                        ],
                      )
              ])
      ]

  -- A build for which there is a factory is in the cache afterwards, loaded or not.
  pub load_configuration-keeps :
      (name : Bytes) (b : Build) (handler lifetime now factory : ℕ) (c : ProductCache)
      → IsSound c
      → find_factory name c.factories ≡ some factory
      → is_member b.id (ids (load_configuration load name b handler lifetime now c).0.products)
        ≡ true
  unfolding load_configuration
  load_configuration-keeps name b handler lifetime now factory c s known =
      elim (Bool-cases (is_member b.id (ids c.products))) [
        | inl here ↦
            let j = join_loaded-Joined b.id handler (now + lifetime) c.products s.idle here in
            rw (j.join_eq, load_configuration) (rw j.ids_eq here)
        | inr new ↦
            rw (join_loaded-none b.id handler (now + lifetime) c.products new, load_configuration)
              (rw (known, load_configuration)
                (rw (loaded-ids (load_new-Loaded load factory b handler now c))
                  (is_member-append b.id b.id (ids c.products) ∙ ground arith)))
      ]

  -- A build that could not be loaded stays in the cache: `LoadConfiguration` returns false for it,
  -- and the next call for the same build, by whatever name and at whatever time, returns true and
  -- calls its handler.
  pub failed_load-Serves :
      (name again : Bytes) (b : Build) (handler next lifetime now later factory : ℕ)
      (c : ProductCache)
      → IsSound c
      → is_member b.id (ids c.products) ≡ false
      → find_factory name c.factories ≡ some factory
      → loads load factory b ≡ ok false
      → let first = load_configuration load name b handler lifetime now c in
        let second = load_configuration load again b next lifetime later first.0 in
        (first.1 ≡ ok false)
        × (second.1 ≡ ok true)
        × (second.0.calls ≡ first.0.calls ++ ((next, b.id) ∷ []))
  unfolding serves succeeds throws_out
  failed_load-Serves name again b handler next lifetime now later factory c s new known fails =
      let first = load_configuration load name b handler lifetime now c in
      let one = load_configuration-Serves name b handler lifetime now c s in
      let ends : serves name b c ≡ ok false = rw (new, known) fails in
      let sound : IsSound first.0 = elim one.3 [ inl t ↦ cc | inr s' ↦ s' ] in
      let kept = load_configuration-keeps name b handler lifetime now factory c s known in
      let two = load_configuration-Serves again b next lifetime later first.0 sound in
      (one.0 ∙ ends, two.0 ∙ rw kept refl, two.1 ∙ rw kept refl)

  pub run : List Operation → ProductCache → ProductCache
  run [] c = c
  run (load_config name b handler lifetime now ∷ ops) c =
      run ops (load_configuration load name b handler lifetime now c).0
  run (remove_expired now ∷ ops) c = run ops (remove_expired_entries now c)
  run (register name f ∷ ops) c = run ops (register_factory name f c)

  load_configuration-AreDistinct :
      (name : Bytes) (b : Build) (handler lifetime now : ℕ) (c : ProductCache)
      → AreDistinct (ids c.products)
      → AreDistinct (ids (load_configuration load name b handler lifetime now c).0.products)
  unfolding load_configuration
  load_configuration-AreDistinct name b handler lifetime now c d =
      elim (Bool-cases (is_member b.id (ids c.products))) [
        | inl here ↦
            let j = join_loaded-Kept b.id handler (now + lifetime) c.products here in
            rw (j.join_eq, load_configuration) (subst AreDistinct (sym j.ids_eq) d)
        | inr new ↦
            rw (join_loaded-none b.id handler (now + lifetime) c.products new, load_configuration)
              (elim (Option-cases (find_factory name c.factories)) [
                | inl unknown ↦ rw (unknown, load_configuration) d
                | inr (factory, known) ↦
                    rw (known, load_configuration)
                      (added_once (load_new-Loaded load factory b handler now c) new d)
              ])
      ]

  -- Whatever is loaded, also where the loading throws and leaves a product loading, and whatever is
  -- removed and registered, one operation after the other, no build stands twice in the cache.
  pub run-AreDistinct :
      (ops : List Operation) (c : ProductCache)
      → AreDistinct (ids c.products)
      → AreDistinct (ids (run ops c).products)
  unfolding run remove_expired_entries
  run-AreDistinct [] c d = d
  run-AreDistinct (load_config name b handler lifetime now ∷ ops) c d =
      run-AreDistinct ops (load_configuration load name b handler lifetime now c).0
        (load_configuration-AreDistinct name b handler lifetime now c d)
  run-AreDistinct (remove_expired now ∷ ops) c d =
      run-AreDistinct ops (remove_expired_entries now c) (keep_records-AreDistinct now c.products d)
  run-AreDistinct (register name f ∷ ops) c d =
      run-AreDistinct ops (register_factory name f c)
        (subst (λ rs. AreDistinct (ids rs)) (sym (register_factory-products name f c)) d)
