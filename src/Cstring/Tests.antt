-- ===== src/Cstring/Tests.antt =====
-- Strings in memory on which the theorems of string.c are run.
use nans_os.Base.{◌≡◌, arith, if◌then◌else◌, ◌==◌}
use nans_os.Cstring.{Mem, memmove}
use nans_os.Cstring.Copy.{memmove-copied}
use nans_os.Cstring.Measure.{IsString}

-- "hi" at 100 and "ho" at 200.
abbrev words : Mem
words a =
    if a == 100
    then b'h'
    else if a == 101
    then b'i'
    else if a == 200
    then b'h'
    else if a == 201
    then b'o'
    else 0

hi-IsString : IsString words 100 2
hi-IsString = record { body = λ i h. ground arith; ends = ground arith }

ho-IsString : IsString words 200 2
ho-IsString = record { body = λ i h. ground arith; ends = ground arith }

memmove-copied_example : memmove 101 100 2 words 102 ≡ b'i'
memmove-copied_example = memmove-copied 101 100 2 words 102
