-- ===== src/Printf.antt =====
-- The formatted output of src/impl/kernel/string.c: `print_num`, `vsprintf` and `sprintf`.
pub mod Digits
pub mod Formats
mod Tests
use nans_os.Base.{
  ℕ, zero, suc, ◌+◌, ◌-◌, ◌*◌, ◌/◌, ◌%◌, ◌^◌, ◌&&◌, ◌||◌, Option, none, some, List, [], ◌∷◌, ◌++◌,
  ltb, leb, ◌==◌, if◌then◌else◌, length, get_or, replicate,
}

abbrev pub digit_chars : List ℕ
digit_chars =
    b'0' ∷ b'1' ∷ b'2' ∷ b'3' ∷ b'4' ∷ b'5' ∷ b'6' ∷ b'7' ∷ b'8' ∷ b'9' ∷ b'A' ∷ b'B' ∷ b'C' ∷ b'D'
    ∷ b'E' ∷ b'F' ∷ []

-- The `do` loop: what it stores in `tmp`, the last digit first. `none` means that the fuel ran out.
unfoldable pub digit_loop : ℕ → ℕ → ℕ → Option (List ℕ)
digit_loop zero base num = none
digit_loop (suc f) base num =
    let rest = digit_loop f base (num / base) in
    let c = get_or digit_chars (num % base) 0 in
    if num / base == 0 then some (c ∷ []) else elim rest [ none ↦ none | some cs ↦ some (c ∷ cs) ]

-- `tmp` after the padding.
abbrev pub padded : ℕ → ℕ → List ℕ → List ℕ
padded width pad cs = cs ++ replicate (width - length cs) pad

unfoldable pub backwards : List ℕ → List ℕ
backwards [] = []
backwards (c ∷ cs) = backwards cs ++ (c ∷ [])

-- A number of 64 bits takes at most 64 rounds.
abbrev pub digit_fuel : ℕ
digit_fuel = 65

-- The bytes that `print_num` writes.
unfoldable pub print_num : ℕ → ℕ → ℕ → ℕ → Option (List ℕ)
print_num num base width pad = elim (digit_loop digit_fuel base num) [
  | none ↦ none
  | some cs ↦ some (backwards (padded width pad cs))
]

-- An argument: 32 bits of an `int` or an `unsigned int`, or the bytes of a string.
pub data Arg : Type 0 where
  word : ℕ → Arg
  string : List ℕ → Arg

-- `va_arg(args, int)` converted to a uint64_t: the sign is int_to_u64.
abbrev pub int_to_u64 : ℕ → ℕ
int_to_u64 w = if ltb w (2 ^ 31) then w else w + (2 ^ 64 - 2 ^ 32)

-- What a specifier writes, and the arguments that it leaves; `none` where the argument is not there
-- or is not of its type.
unfoldable pub print_word : (ℕ → Option (List ℕ)) → List Arg → Option (List ℕ × List Arg)
print_word f (word w ∷ args) = elim (f w) [ none ↦ none | some cs ↦ some (cs, args) ]
print_word f _ = none

unfoldable pub print_string : List Arg → Option (List ℕ × List Arg)
print_string (string s ∷ args) = some (s, args)
print_string _ = none

unfoldable pub specifier : ℕ → ℕ → List Arg → Option (List ℕ × List Arg)
specifier c width args =
    if c == b'd' || c == b'i'
    then print_word (λ w. print_num (int_to_u64 w) 10 width b' ') args
    else if c == b'x' || c == b'X'
    then print_word (λ w. print_num w 16 width b'0') args
    else if c == b'u'
    then print_word (λ w. print_num w 10 width b' ') args
    else if c == b's'
    then print_string args
    else if c == b'c'
    then print_word (λ w. some ((w % 256) ∷ [])) args
    else if c == b'%'
    then some (b'%' ∷ [], args)
    else some (b'?' ∷ [], args)

-- The width digit behind a percent sign, if there is one, and what follows.
abbrev pub width_of : List ℕ → ℕ × List ℕ
width_of [] = (0, [])
width_of (c ∷ cs) = if leb b'0' c && leb c b'9' then (c - b'0', cs) else (0, c ∷ cs)

-- What stands behind a percent sign: the bytes written, the rest of the format and of the arguments.
-- A format that ends there is read beyond its terminator: `none`.
unfoldable pub conversion : List ℕ → List Arg → Option (List ℕ × List ℕ × List Arg)
conversion cs args =
    let (width, rest) = width_of cs in
    elim rest [
      | [] ↦ none
      | d ∷ ds ↦ elim (specifier d width args) [
        | none ↦ none
        | some (out, args') ↦ some (out, ds, args')
      ]
    ]

-- The loop over the bytes of the format before its terminator.
unfoldable pub vsprintf_loop : ℕ → List ℕ → List Arg → Option (List ℕ)
vsprintf_loop zero format args = none
vsprintf_loop (suc f) [] args = some []
vsprintf_loop (suc f) (c ∷ cs) args =
    elim (if c == b'%' then conversion cs args else some (c ∷ [], cs, args)) [
      | none ↦ none
      | some (out, format, args') ↦ elim (vsprintf_loop f format args') [
        | none ↦ none
        | some rest ↦ some (out ++ rest)
      ]
    ]

-- The bytes written before the terminator; the result of the C function is their number.
unfoldable pub vsprintf : List ℕ → List Arg → Option (List ℕ)
vsprintf format args = vsprintf_loop (suc (length format)) format args
