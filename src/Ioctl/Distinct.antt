-- ===== src/Ioctl/Distinct.antt =====
-- No two commands have the same number.
use spacemit_xenomai.Base.{
  ℕ, ◌^◌, ◌<◌, ◌≡◌, sym, ap, ◌∙◌, subst, inl, inr, Bool-cases, All, some, List, [], ◌∷◌, arith,
  ◌==◌,
}
use spacemit_xenomai.Ioctl.{Direction, Argument, no_arg, direction_bits}
use spacemit_xenomai.Ioctl.Commands.{Command, command_code, all_commands, key, find, found}

some-inj : (c d : Command) → some c ≡ some d → c ≡ d
some-inj c d e = cc

abbrev Fits : Command → Type 0
Fits c = ((command_code c).base < 256) × ((command_code c).nr < 256)

find-All : (k : ℕ) (cs : List Command) (c : Command) → All Fits cs → find k cs ≡ some c → Fits c
unfolding find
find-All k [] c h e = cc
find-All k (x ∷ cs) c h e = elim (Bool-cases (key x == k)) [
  | inl hit ↦ let same : some x ≡ some c = rw hit at e in subst Fits (some-inj x c same) h.0
  | inr miss ↦ find-All k cs c h.1 (rw miss at e)
]

All-Fits : All Fits all_commands
unfolding command_code
All-Fits = omega arith

-- What the kernel documents of `_IOC(dir, type, nr, size)`: it packs a direction of 2 bits, a type
-- and a number of 8 bits and a size of 14 bits side by side, so they can be read back.
pub record IocMacro : Type 0 where
  pub ioc : ℕ → ℕ → ℕ → ℕ → ℕ
  pub read_back :
      (dir type nr size dir' type' nr' size' : ℕ)
      → (dir < 4) × (type < 256) × (nr < 256) × (size < 2 ^ 14)
      → (dir' < 4) × (type' < 256) × (nr' < 256) × (size' < 2 ^ 14)
      → ioc dir type nr size ≡ ioc dir' type' nr' size'
      → (dir ≡ dir') × (type ≡ type') × (nr ≡ nr') × (size ≡ size')

-- `sizeof`, by the type of the argument; a command without one has size 0.
abbrev pub argument_size : (Argument → ℕ) → Argument → ℕ
argument_size size_of no_arg = 0
argument_size size_of a = size_of a

unfoldable pub command_number : IocMacro → (Argument → ℕ) → Command → ℕ
unfolding command_code
command_number macro size_of c =
    let k = command_code c in
    macro.ioc (direction_bits k.direction) k.base k.nr (argument_size size_of k.argument)

direction-lt : (d : Direction) → direction_bits d < 4
direction-lt Direction.io = omega arith
direction-lt Direction.ior = omega arith
direction-lt Direction.iow = omega arith
direction-lt Direction.iowr = omega arith

size-lt :
    (size_of : Argument → ℕ) (a : Argument)
    → ((a : Argument) → size_of a < 2 ^ 14)
    → argument_size size_of a < 2 ^ 14
size-lt size_of no_arg small = omega arith
size-lt size_of a small = small a

-- For an `_IOC` that can be read back, and arguments of less than 2 ^ 14 bytes: two commands of the
-- core's devices that have the same number are the same command.
pub command_number-distinct :
    (macro : IocMacro) (size_of : Argument → ℕ) (c d : Command)
    → ((a : Argument) → size_of a < 2 ^ 14)
    → command_number macro size_of c ≡ command_number macro size_of d
    → c ≡ d
unfolding command_number
command_number-distinct macro size_of c d small same =
    let fits = λ (x : Command). find-All (key x) all_commands x All-Fits (found x) in
    let k = command_code c in
    let k' = command_code d in
    let parts =
      macro.read_back (direction_bits k.direction) k.base k.nr (argument_size size_of k.argument)
        (direction_bits k'.direction) k'.base k'.nr (argument_size size_of k'.argument)
        (direction-lt k.direction, (fits c).0, (fits c).1, size-lt size_of k.argument small)
        (direction-lt k'.direction, (fits d).0, (fits d).1, size-lt size_of k'.argument small)
        same in
    let keys : key c ≡ key d = omega (arith, parts) in
    some-inj c d (sym (found c) ∙ ap (λ n. find n all_commands) keys ∙ found d)
