-- ===== src/Native/Report.antt =====
-- python/metal_native/profiling.py: the lines of the memory report, with the numbers they show.
use metal_native.Base.{
  ℕ, suc, leb, Option, none, some, List, [], ◌∷◌, ◌++◌, if◌then◌else◌, length, take,
}
use metal_native.Base.Exec.{Result, ok, err, key_error, from_option}
use metal_native.Base.Text.{Text}
use metal_native.Native.{Heap, Allocation, Snapshot}

pub data Line : Type 0 where
  rule title blank overall heap_statistics top_ten : Line
  total_allocated total_cached peak_allocated available_system : ℕ → Line
  heap : ℕ → Line
  heap_size used free num_allocations fragmentation : ℕ → Line
  active_allocations : ℕ → Line
  allocation : ℕ → Option Text → Line

infixl 5 ◌>>=◌
abbrev ◌>>=◌ : {A B : Type 0} → Result A → (A → Result B) → Result B
ok a >>= f = f a
err e >>= f = err e

abbrev entry : Option ℕ → Result ℕ
entry o = from_option o key_error

unfoldable pub overall_lines : Snapshot → Result (List Line)
overall_lines s = do
  a ← entry s.total_allocated
  c ← entry s.total_cached
  p ← entry s.peak_allocated
  v ← entry s.available_system
  ok (
      overall
      ∷ total_allocated a
      ∷ total_cached c
      ∷ peak_allocated p
      ∷ available_system v
      ∷ blank
      ∷ [])

abbrev heap_entry : ℕ → Heap → Result (List Line)
heap_entry i h = do
  n ← entry h.heap_size
  u ← entry h.used_bytes
  f ← entry h.free_bytes
  a ← entry h.num_allocations
  r ← entry h.fragmentation_ratio
  ok (heap i ∷ heap_size n ∷ used u ∷ free f ∷ num_allocations a ∷ fragmentation r ∷ [])

-- `for i, heap in enumerate(heaps)`, from `i`
abbrev heaps_from : ℕ → List Heap → Result (List Line)
heaps_from i [] = ok []
heaps_from i (h ∷ heaps) = do
  lines ← heap_entry i h
  rest ← heaps_from (suc i) heaps
  ok (lines ++ rest)

unfoldable pub heap_lines : Option (List Heap) → Result (List Line)
heap_lines none = ok []
heap_lines (some []) = ok []
heap_lines (some (h ∷ heaps)) = do
  lines ← heaps_from 0 (h ∷ heaps)
  ok (heap_statistics ∷ lines ++ blank ∷ [])

-- An allocation with its size, which the sort reads first.
pub record Sized : Type 0 where
  pub size : ℕ
  pub tag : Option Text

abbrev pub sized : List Allocation → Result (List Sized)
sized [] = ok []
sized (a ∷ allocs) = do
  n ← entry a.size
  rest ← sized allocs
  ok (record { size = n; tag = a.tag } ∷ rest)

abbrev pub insert_by_size : Sized → List Sized → List Sized
insert_by_size a [] = a ∷ []
insert_by_size a (b ∷ bs) =
    let rest = insert_by_size a bs in if leb b.size a.size then a ∷ b ∷ bs else b ∷ rest

-- `sorted(allocs, key=lambda x: x['size'], reverse=True)`, which keeps the order of equal sizes
abbrev pub sort_by_size : List Sized → List Sized
sort_by_size [] = []
sort_by_size (a ∷ allocs) = insert_by_size a (sort_by_size allocs)

unfoldable pub sorted_allocs : List Sized → List Sized
sorted_allocs allocs = take 10 (sort_by_size allocs)

abbrev shown : List Sized → List Line
shown [] = []
shown (a ∷ allocs) = allocation a.size a.tag ∷ shown allocs

abbrev largest : List Sized → List Line
largest [] = []
largest (a ∷ allocs) = top_ten ∷ shown (a ∷ allocs) ++ blank ∷ []

unfoldable pub allocation_lines : Option (List Allocation) → Result (List Line)
unfolding sorted_allocs
allocation_lines none = ok []
allocation_lines (some []) = ok []
allocation_lines (some (a ∷ allocs)) = do
  all ← sized (a ∷ allocs)
  ok (active_allocations (length (a ∷ allocs)) ∷ blank ∷ largest (sorted_allocs all))

unfoldable pub report_lines : Snapshot → Result (List Line)
unfolding overall_lines heap_lines allocation_lines
report_lines s = do
  first ← overall_lines s
  heaps ← heap_lines s.heaps
  allocs ← allocation_lines s.allocations
  ok (rule ∷ title ∷ rule ∷ blank ∷ first ++ heaps ++ allocs ++ rule ∷ [])
