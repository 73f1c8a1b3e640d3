-- ===== src/Outcome/Iter/Ordered.antt =====
-- src/hive/outcome/iter.rs: the whole of what an `OutcomeIterator` yields.
use procpool.Common.{
  ℕ, zero, suc, ◌+◌, ◌*◌, ◌≤◌, ◌≡◌, refl, ◌∙◌, List, [], ◌∷◌, map, some, arith, length, take_whole,
  All, contains, true, ==_iff,
}
use procpool.Common.Maps.{get}
use procpool.Outcome.{Outcome}
use procpool.Outcome.Store.{Outcomes}
use procpool.Outcome.Iter.{new, read_items}
use procpool.Outcome.Iter.Serve.{Nodup, find, Distinct, pending, Inv, iter_of, Served, serve}

module _ {ℓ} {I O E : Type ℓ} (pick : ℕ → Outcome I O E) where
  -- Every index has its outcome, filed or still to come.
  abbrev Has : List (Outcome I O E) → Outcomes I O E → List ℕ → Type ℓ
  Has os buf = All (λ i. pending i os buf ≡ some (pick i))

  Has-kept :
      (os os' : List (Outcome I O E)) (buf buf' : Outcomes I O E) (all is : List ℕ)
      → ((j : ℕ) → contains all j ≡ true → pending j os' buf' ≡ pending j os buf)
      → ((j : ℕ) → contains is j ≡ true → contains all j ≡ true)
      → Has os buf is
      → Has os' buf' is
  unfolding contains
  Has-kept os os' buf buf' all [] kept sub has = tt
  Has-kept os os' buf buf' all (i ∷ is) kept sub has = (
    kept i (sub i (ground (arith, ==_iff i i))) ∙ has.0,
    Has-kept os os' buf buf' all is kept (λ j h. sub j (ground arith)) has.1,
  )

  read_items-lem :
      (n : ℕ) (is : List ℕ) (os : List (Outcome I O E)) (buf : Outcomes I O E)
      → length is ≤ n
      → Nodup is
      → Inv os buf
      → Has os buf is
      → read_items n (iter_of os is buf) ≡ some (map pick is)
  unfolding read_items
  read_items-lem zero [] os buf h d inv has = refl
  read_items-lem zero (i ∷ is) os buf h d inv has = absurd (omega arith)
  read_items-lem (suc n) [] os buf h d inv has = ground arith
  read_items-lem (suc n) (i ∷ is) os buf h d inv has =
      let s : Served (2 * length os + 2) i os is buf (pick i) =
        serve (2 * length os + 2) i os is buf (pick i) (omega arith) inv d.0 has.0 in
      let rest : read_items n (iter_of s.left is s.held) ≡ some (map pick is) =
        read_items-lem n is s.left s.held (omega arith) d.1 s.inv
          (Has-kept os s.left buf s.held is is s.kept (λ j e. e) has.1) in
      ground (arith, s.served, rest)

  Has-new :
      (os : List (Outcome I O E)) (is : List ℕ)
      → All (λ i. find i os ≡ some (pick i)) is
      → Has os [] is
  unfolding pending get
  Has-new os [] h = tt
  Has-new os (i ∷ is) h = (h.0, Has-new os is h.1)

  -- The inner iterator may yield its outcomes in any order. If it yields one for each index, at most
  -- as many as there are indices, and the indices are distinct, then a consumer that reads that many
  -- items or more gets the outcome of each index, in the order of the indices, and the iterator ends.
  pub read_items-new :
      (n : ℕ) (is : List ℕ) (os : List (Outcome I O E))
      → length is ≤ n
      → Nodup is
      → Distinct os
      → length os ≤ length is
      → All (λ i. find i os ≡ some (pick i)) is
      → read_items n (new os is) ≡ some (map pick is)
  unfolding new get
  read_items-new n is os h d apart fits has =
      rw (take_whole os (length is) fits) (read_items-lem n is os [] h d start (Has-new os is has))
    where
      start : Inv os []
      start = record {
        filed = λ k o e. absurd (cc e);
        apart = apart;
        fresh = λ k o e. absurd (cc e);
      }
