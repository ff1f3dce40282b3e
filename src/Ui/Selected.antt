-- ===== src/Ui/Selected.antt =====
-- evmdebug/ui.go: which line of the code is selected behind a Step.
use specops.Base.{
  ℕ, suc, ◌+◌, ◌≡◌, ◌<◌, refl, ap, sym, subst, ◌∙◌, true, false, ◌==◌, some, List, [], ◌∷◌, ◌++◌,
  length, length-append, get_elem?, All, ok, ok-injective, arith,
}
use specops.Debugger.{Hook, idle, Debugger, Reach}
use specops.Debugger.Phases.{ends_last}
use specops.Debugger.Counts.{shown}
use specops.Run.Waiting.{begin}
use specops.Ui.{end_of_code, Listing, populate_code}
use specops.Ui.Code.{Instruction, IsWhole, bytes_of, lines_of, positions, part}
use specops.Ui.Listed.{from_whole}
use specops.Ui.Input.{listening, Screen, item_of, opened, Session}
use specops.Ui.Highlight.{listening-shows}

-- The position of the instruction at an offset.
item_of-positions :
    (pre : List Instruction) (i : Instruction) (post : List Instruction) (n j : ℕ)
    → item_of (positions n j (pre ++ i ∷ post)) (n + length (bytes_of pre)) ≡ j + length pre
unfolding item_of
item_of-positions [] (o, bs) post n j =
    let e : (n == n + 0) ≡ true = ground arith in rw e (omega arith)
item_of-positions ((o, bs) ∷ pre) i post n j =
    let e : (n == n + length (o ∷ bs ++ bytes_of pre)) ≡ false = ground arith in
    let w : n + 1 + length bs + length (bytes_of pre) ≡ n + length (o ∷ bs ++ bytes_of pre) =
      omega (arith, length-append bs (bytes_of pre)) in
    let later = positions (n + 1 + length bs) (j + 1) (pre ++ i ∷ post) in
    let h = item_of-positions pre i post (n + 1 + length bs) (j + 1) in
    rw e (ap (item_of later) (sym w) ∙ h ∙ omega arith)

-- The line behind that of an instruction.
line_behind :
    (pre : List Instruction) (i : Instruction) (post : List Instruction)
    → get_elem? (lines_of (pre ++ i ∷ post) ++ end_of_code ∷ []) (suc (length pre))
      ≡ get_elem? (lines_of post ++ end_of_code ∷ []) 0
line_behind [] i post = refl
line_behind ((o, bs) ∷ pre) i post = line_behind pre i post

-- Let the calls of the hooks be such that a STOP, a RETURN or a fault, if there is one, is the
-- last, and the interface start on code of whole instructions and with the Debugger of
-- StartDebugging, before a Step or a FastForward. Whenever it listens, behind a Step and before any
-- FastForward, if the last call let through was at an instruction, then the line of the code that
-- follows this instruction's is selected, and the stack and memory of the call are displayed.
pub listening-selects :
    (hs : List Hook) (pre : List Instruction) (i : Instruction) (post : List Instruction)
    (l : Listing) (d : Debugger) (u : Screen) (c : ℕ)
    → ends_last hs ≡ true
    → All IsWhole (pre ++ i ∷ post)
    → populate_code (part (bytes_of (pre ++ i ∷ post)) []) ≡ ok l
    → Reach (begin hs) d
    → d.client ≡ idle
    → d.steps ≡ 0
    → d.forwarded ≡ false
    → Session (opened l.pc_to_item d) u
    → u.place ≡ listening
    → 0 < u.debugger.steps
    → u.debugger.forwarded ≡ false
    → (shown hs u.debugger.steps).context ≡ some c
    → (shown hs u.debugger.steps).pc ≡ length (bytes_of pre)
    → (get_elem? l.lines u.current ≡ get_elem? (lines_of post ++ end_of_code ∷ []) 0)
      × (u.displayed ≡ some c)
listening-selects hs pre i post l d u c o w p r n z g q a b f x y =
    let (s, t) = listening-shows hs o d l.pc_to_item u c r n z g q a b f x in
    let is = pre ++ i ∷ post in
    let made : Listing = record {
      lines = lines_of is ++ end_of_code ∷ [];
      pc_to_item = positions 0 0 is;
    } in
    let e : made ≡ l = ok-injective (sym (from_whole (bytes_of is) is w refl) ∙ p) in
    let at_it : item_of made.pc_to_item (length (bytes_of pre)) ≡ length pre =
      subst (λ (v : ℕ). item_of (positions 0 0 is) v ≡ length pre) (omega arith)
        (item_of-positions pre i post 0 0 ∙ omega arith) in
    let mapped : item_of l.pc_to_item (shown hs u.debugger.steps).pc ≡ length pre =
      ap (item_of l.pc_to_item) y
      ∙ ap (λ (v : Listing). item_of v.pc_to_item (length (bytes_of pre))) (sym e)
      ∙ at_it in
    let k : u.current ≡ suc (length pre) = s ∙ omega arith in
    (
      ap (get_elem? l.lines) k
          ∙ ap (λ (v : Listing). get_elem? v.lines (suc (length pre))) (sym e)
          ∙ line_behind pre i post,
      t,
    )
