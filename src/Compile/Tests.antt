-- ===== src/Compile/Tests.antt =====
-- Programs compiled by the model, some of them from the tests of the source.
use specops.Base.{
  ℕ, zero, suc, ◌≡◌, refl, inl, inr, String, Option, List, [], ◌∷◌, ◌++◌, replicate, arith, Outcome,
  ok,
}
use specops.Splice.{jumpdest, label, push_tag, push_tags, push_size}
use specops.Code.{
  Bytecoder, op_code, raw, pusher, lazy_locator, set_depth, Code, from_list, fn, flatten,
}
use specops.Compile.{compile, start, Compiling, compile_loop, scan, invert, compile_one}
use specops.Compile.Reading.{Item, byte, lazily, Program}
use specops.Compile.Linking.{Links, IsPlain}
use specops.Compile.Correct.{compile-Links}
use specops.Compile.Total.{compile-returns, IsClosed}
use specops.Compile.Executed.{execute, at_depth, reaches_below, EndsAt, scan-EndsAt}
use specops.Opcode.Table.{stack_delta}
use specops.Compile.Depth.{scan-Runs, Runs-scan}
use specops.Compile.Invert.{invert_lem, from_bottom}

abbrev compile_list : List Bytecoder → Outcome (List ℕ)
compile_list bs = compile (from_list bs)

-- Fn(MSTORE, PUSH0, PUSH("Hello world")) of the README, with a shorter text.
hello :
    compile_list (fn (op_code 0x52 ∷ op_code 0x5f ∷ pusher (0 ∷ 0x68 ∷ 0x69 ∷ []) ∷ []) ∷ [])
    ≡ ok (0x61 ∷ 0x68 ∷ 0x69 ∷ 0x5f ∷ 0x52 ∷ [])
unfolding compile fn
hello = refl

abbrev jumps : Code
jumps = from_list (
    lazy_locator (push_tag "end") ∷ op_code 0x56 ∷ lazy_locator (jumpdest "end") ∷ set_depth 0 ∷ [])

abbrev jump_items : List Item
jump_items = lazily (push_tag "end") ∷ byte 0x56 ∷ lazily (jumpdest "end") ∷ []

abbrev jump_bytes : List ℕ
jump_bytes = 0x60 ∷ 3 ∷ 0x56 ∷ 0x5b ∷ []

jump_forward : compile jumps ≡ ok jump_bytes
unfolding compile
jump_forward = refl

-- The place of "after" is 303, but the table before it is one byte shorter than was reserved for it.
zero_tag_in_table :
    compile_list (
      lazy_locator (label "start")
      ∷ raw (replicate 300 0)
      ∷ lazy_locator (label "large")
      ∷ lazy_locator (push_tags ("start" ∷ "large" ∷ []))
      ∷ lazy_locator (label "after")
      ∷ lazy_locator (push_tag "after")
      ∷ [])
    ≡ ok (replicate 300 0 ++ 0x61 ∷ 1 ∷ 44 ∷ 0x61 ∷ 1 ∷ 48 ∷ [])
unfolding compile
zero_tag_in_table = refl

abbrev repeated : ℕ → List ℕ → List ℕ
repeated zero bs = []
repeated (suc n) bs = bs ++ repeated n bs

-- The places of "b" and "end" are 564, but the PUSHSize before them is one byte shorter than was
-- reserved for it: 17 tables of 16 tags grew in the same pass.
size_too_large :
    compile_list (
      replicate 17 (lazy_locator (push_tags (replicate 16 "end")))
      ++ (lazy_locator (label "a")
          ∷ lazy_locator (push_size "a" "b")
          ∷ lazy_locator (label "b")
          ∷ lazy_locator (label "end")
          ∷ lazy_locator (push_tag "end")
          ∷ []))
    ≡ ok (repeated 17 (0x7f ∷ repeated 16 (2 ∷ 52 ∷ [])) ++ (0x60 ∷ 3 ∷ 0x61 ∷ 2 ∷ 52 ∷ []))
unfolding compile
size_too_large = refl

-- The states of the compiler in the program that jumps.
state : Outcome Compiling → Compiling
state (ok c) = c
state _ = start

abbrev after_push : Compiling
after_push = state (compile_one (lazy_locator (push_tag "end")) start)

abbrev after_jump : Compiling
after_jump = state (compile_one (op_code 0x56) after_push)

abbrev after_dest : Compiling
after_dest = state (compile_one (lazy_locator (jumpdest "end")) after_jump)

abbrev after_depth : Compiling
after_depth = state (compile_one (set_depth 0) after_dest)

jump-Program : Program (flatten jumps) start jump_items
unfolding compile_loop flatten state
jump-Program = (
  lazily (push_tag "end") ∷ [],
  byte 0x56 ∷ lazily (jumpdest "end") ∷ [],
  after_push,
  refl,
  refl,
  refl,
  (
    byte 0x56 ∷ [],
    lazily (jumpdest "end") ∷ [],
    after_jump,
    refl,
    (0x56 ∷ [], refl, refl),
    refl,
    (
      lazily (jumpdest "end") ∷ [],
      [],
      after_dest,
      refl,
      refl,
      refl,
      ([], [], after_depth, refl, refl, refl, refl),
    ),
  ),
)

jump-IsPlain : IsPlain jump_items
jump-IsPlain = record {
  no_sizes = (refl, (refl, tt));
  short = omega arith;
  tables = inr (omega arith, (omega arith, tt));
}

compile-Links_example : (loc : String → Option ℕ) × Links loc 0 jump_items jump_bytes
compile-Links_example =
    compile-Links jumps jump_items jump_bytes jump-Program jump-IsPlain jump_forward

jump_done : compile_loop (flatten jumps) start ≡ ok after_depth
unfolding compile_loop flatten state
jump_done = refl

jump-IsClosed : IsClosed jump_items
jump-IsClosed = record {
  named = ((refl, tt), (tt, tt));
  sized = (tt, (tt, tt));
  short = inl (refl, (refl, tt));
}

compile-returns_example : (out : List ℕ) × (compile jumps ≡ ok out)
compile-returns_example =
    compile-returns jumps after_depth jump_items jump_done jump-Program jump-IsClosed

-- PUSH2, whose immediate bytes are no opcodes, and ADD.
abbrev adding : List ℕ
adding = 0x61 ∷ 0xee ∷ 0xef ∷ 0x01 ∷ []

adding-scan : scan adding 0 1 ≡ ok 1
unfolding scan
adding-scan = refl

-- DUP16 is accepted at depth 1.
dup16-scan : scan (0x8f ∷ []) 0 1 ≡ ok 2
unfolding scan
dup16-scan = refl

dup16-execute : execute (0x8f ∷ []) 0 1 ≡ reaches_below 0x8f
unfolding execute
dup16-execute = refl

adding-execute : execute adding 0 1 ≡ at_depth 1
unfolding execute stack_delta
adding-execute = refl

scan-EndsAt_example : EndsAt 2 (execute (0x8f ∷ []) 0 1)
scan-EndsAt_example = scan-EndsAt (0x8f ∷ []) 0 1 2 (omega arith) dup16-scan

Runs-scan_example : scan adding 0 1 ≡ ok 1
Runs-scan_example =
    Runs-scan adding 0 1 1 (omega arith) (scan-Runs adding 0 1 1 (omega arith) adding-scan)

invert_lem_example : invert 0x91 5 ≡ from_bottom 0x91 5
invert_lem_example = invert_lem 0x91 5 (omega arith) (omega arith)
