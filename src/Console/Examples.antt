-- ===== src/Console/Examples.antt =====
-- A console whose indices are about to wrap.
use operating_system.Common.{
  ℕ, ◌+◌, ◌^◌, ◌-◌, ◌<◌, ◌≡◌, zero, suc, refl, arith, true, false, List, [], ◌∷◌, ◌++◌, length,
  get_or,
}
use operating_system.Common.Int.{pos}
use operating_system.Console.{Console, Cga, returned, consoleintr, consoleread, printint}
use operating_system.Console.Keys.{IsBytes, consoleintr-Holds}
use operating_system.Console.Held.{Holds, press, press_all}
use operating_system.Console.Lines.{IsPlain, consoleread-consoleintr}
use operating_system.Console.Print.{ten, read_int, value, read_int-printint}

abbrev quiet : Console
quiet = record {
  input = record { buf = λ x. 0; r = 2 ^ 32 - 2; w = 2 ^ 32 - 2; e = 2 ^ 32 - 2 };
  screen = [];
  woken = false;
  dump = false;
}

quiet-Holds : Holds quiet.input ([], [])
quiet-Holds = record {
  r_word = omega arith;
  w_at = refl;
  e_at = refl;
  fits = omega arith;
  ready = λ k h. absurd (omega arith);
  line = λ k h. absurd (omega arith);
  no_newline = λ k h. absurd (omega arith);
}

-- "ls", with a key that is taken back
abbrev typed : List ℕ
typed = 108 ∷ 116 ∷ 127 ∷ 115 ∷ 13 ∷ []

typed-IsBytes : IsBytes typed
unfolding IsBytes
typed-IsBytes zero h = omega arith
typed-IsBytes (suc zero) h = omega arith
typed-IsBytes (suc (suc zero)) h = omega arith
typed-IsBytes (suc (suc (suc zero))) h = omega arith
typed-IsBytes (suc (suc (suc (suc zero)))) h = omega arith
typed-IsBytes (suc (suc (suc (suc (suc j))))) h = absurd (omega arith)

consoleintr_example : Holds (consoleintr typed quiet).input (press_all typed ([], []))
consoleintr_example = consoleintr-Holds typed quiet ([], []) typed-IsBytes quiet-Holds

typed_lines : press_all typed ([], []) ≡ (108 ∷ 115 ∷ 10 ∷ [], [])
unfolding press_all press
typed_lines = refl

abbrev word : List ℕ
word = 108 ∷ 115 ∷ []

word-IsPlain : (j : ℕ) → j < length word → IsPlain (get_or word j 0)
unfolding IsPlain
word-IsPlain zero h = ground arith
word-IsPlain (suc zero) h = ground arith
word-IsPlain (suc (suc j)) h = absurd (omega arith)

consoleread_example :
    Holds (consoleread false 10 10 (consoleintr (word ++ 13 ∷ []) quiet).input).input ([], [])
    × ((consoleread false 10 10 (consoleintr (word ++ 13 ∷ []) quiet).input).got ≡ word ++ 10 ∷ [])
    × ((consoleread false 10 10 (consoleintr (word ++ 13 ∷ []) quiet).input).ending
        ≡ returned (pos (length word + 1)))
consoleread_example =
    consoleread-consoleintr word quiet false 10 quiet-Holds word-IsPlain (omega arith) (omega arith)

-- the last cell of the screen
abbrev corner : Cga
corner = record { pos = 1919; crt = λ x. x }

printint_example : read_int 10 (printint (2 ^ 32 - 42) 10 true) ≡ value (2 ^ 32 - 42) true
printint_example = read_int-printint (2 ^ 32 - 42) 10 true ten (omega arith)

printed : printint (2 ^ 32 - 42) 10 true ≡ 45 ∷ 52 ∷ 50 ∷ []
unfolding printint
printed = refl
