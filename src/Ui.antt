-- ===== src/Ui.antt =====
-- evmdebug/ui.go: what the terminal interface lists of the code, the stack and the memory. The
-- formatting of a line and the toolkit that shows it are left out: a line is what it is made of.
pub mod Code
pub mod Listed
pub mod Stack
pub mod Memory
pub mod Input
pub mod Quiet
pub mod Session
pub mod Highlight
pub mod Selected
mod SessionTests
mod Tests
use specops.Base.{
  ℕ, zero, suc, ◌+◌, ◌-◌, Bool, ◌&&◌, ◌==◌, leb, ltb, Option, none, some, List, [], ◌∷◌, ◌++◌,
  if◌then◌else◌, length, take, drop, get_elem?, Outcome, ok, panic, out_of_fuel, ◌>>=◌,
}
use specops.Opcode.{push0, is_push}

-- A slice: its elements, and those behind them up to its capacity.
pub record Slice : Type 0 where
  pub elements : List ℕ
  pub spare : List ℕ

-- `s[lo:hi]`; `s[lo:]` is `slice lo (length s.elements) s`.
abbrev pub slice : ℕ → ℕ → Slice → Outcome Slice
slice lo hi s =
    if leb lo hi && leb hi (length (s.elements ++ s.spare))
    then ok (record {
      elements = take (hi - lo) (drop lo (s.elements ++ s.spare));
      spare = drop hi (s.elements ++ s.spare);
    })
    else panic

-- A line of the list of the code.
pub data CodeItem : Type 0 where
  instruction : (op : ℕ) (immediates : List ℕ) → CodeItem
  end_of_code : CodeItem

-- The lines, and the map `pcToCodeItem` in the order in which it is written.
pub record Listing : Type 0 where
  pub lines : List CodeItem
  pub pc_to_item : List (ℕ × ℕ)

-- The statements behind the switch.
abbrev pub add_line : ℕ → CodeItem → Listing → Listing
add_line i text l = record {
  lines = l.lines ++ text ∷ [];
  pc_to_item = l.pc_to_item ++ (i, length l.lines) ∷ [];
}

-- The loop of `populateCode`: the bytes from the i-th on, the bytes that are still to be skipped, and
-- the code as a whole.
unfoldable pub code_loop : Slice → List ℕ → ℕ → ℕ → Listing → Outcome Listing
code_loop code [] i skip l = ok l
code_loop code (o ∷ os) i (suc skip) l = code_loop code os (i + 1) skip l
code_loop code (o ∷ os) i zero l =
    let plain = code_loop code os (i + 1) 0 (add_line i (instruction o []) l) in
    let with_immediates = λ (s : Slice).
      code_loop code os (i + 1) (o - push0) (add_line i (instruction o s.elements) l) in
    if o == push0
    then plain
    else if is_push o
    then slice (i + 1) (i + 1 + (o - push0)) code >>= with_immediates
    else plain

abbrev pub no_lines : Listing
no_lines = record { lines = []; pc_to_item = [] }

unfoldable pub populate_code : Slice → Outcome Listing
unfolding code_loop
populate_code code = do
  l ← code_loop code code.elements 0 0 no_lines
  ok (record l { lines = l.lines ++ end_of_code ∷ [] })

-- A line of the list of the stack: the position from the bottom, and the value.
pub data StackItem : Type 0 where
  no_value : StackItem
  value : (position : ℕ) (item : ℕ) → StackItem

-- `StackBack` of evmdebug.go.
abbrev pub stack_back : List ℕ → ℕ → Outcome ℕ
stack_back d n =
    if ltb n (length d)
    then elim (get_elem? d (length d - n - 1)) [ none ↦ panic | some x ↦ ok x ]
    else panic

-- The loop over the stack, with the number of rounds left.
unfoldable pub stack_loop : List ℕ → ℕ → ℕ → List StackItem → Outcome (List StackItem)
stack_loop d zero i items = ok items
stack_loop d (suc rounds) i items = do
  x ← stack_back d i
  stack_loop d rounds (i + 1) (items ++ value (length d - i) x ∷ [])

-- The loop that adds empty lines before the others, on fuel.
unfoldable pub pad_loop : ℕ → List StackItem → Outcome (List StackItem)
pad_loop zero items = out_of_fuel
pad_loop (suc fuel) items =
    let more = pad_loop fuel (no_value ∷ items) in if ltb (length items) 16 then more else ok items

unfoldable pub populate_stack : List ℕ → Outcome (List StackItem)
unfolding stack_loop pad_loop
populate_stack d = do items ← stack_loop d (length d) 0 []; pad_loop 17 items

-- The loop of `populateMemory`, on fuel: `n` is the length at the start, and a line has the offset and
-- the bytes.
unfoldable pub memory_loop : ℕ → ℕ → ℕ → Slice → List (ℕ × List ℕ) → Outcome (List (ℕ × List ℕ))
memory_loop zero i n mem lines = out_of_fuel
memory_loop (suc fuel) i n mem lines =
    let round = (do
      line ← slice i 32 mem
      rest ← slice n (length mem.elements) mem
      memory_loop fuel (i + 32) n rest (lines ++ (i, line.elements) ∷ [])) in
    if ltb i n then round else ok lines

unfoldable pub populate_memory : Slice → Outcome (List (ℕ × List ℕ))
unfolding memory_loop
populate_memory mem = memory_loop (length mem.elements + 1) 0 (length mem.elements) mem []
