-- ===== src/Console/Tests.antt =====
-- The console at concrete states.
use xv6_extended.Base.{◌-◌, ◌^◌, ◌≡◌, refl, true, false, [], ◌∷◌, arith, ◌==◌, if◌then◌else◌}
use xv6_extended.Console.{Cons, backspace, kill_line, consoleintr, returned, read_loop, consoleread}
use xv6_extended.Console.Line.{ready, line, IsValid, edit, Holds}
use xv6_extended.Console.Editing.{consoleintr-Holds}
use xv6_extended.Console.Reading.{deliver, Delivers, consoleread-Delivers}

-- The line "a" is ready, and "c" is typed, with the indices about to wrap.
abbrev three_typed : Cons
three_typed = record {
  buf = λ i. if i == 126 then 97 else if i == 127 then 10 else 99;
  r = 2 ^ 32 - 2;
  w = 0;
  e = 1;
}

three_typed-IsValid : IsValid three_typed
three_typed-IsValid = record {
  r_uint = omega arith;
  w_uint = omega arith;
  e_uint = omega arith;
  order = omega arith;
  fits = omega arith;
  one_line = ((λ e. omega (arith, e)), tt);
}

-- ^U takes the typed byte back, and echoes one backspace.
kills : (consoleintr 21 three_typed).1 ≡ backspace ∷ []
unfolding consoleintr kill_line
kills = refl

-- A long read takes the line only.
takes_line : (consoleread (λ i ch. true) false 100 three_typed).0 ≡ returned 2
unfolding consoleread read_loop
takes_line = refl

consoleintr-Holds_example :
    Holds (consoleintr 13 three_typed).0 (edit 13 (ready three_typed) (line three_typed))
consoleintr-Holds_example = consoleintr-Holds 13 three_typed three_typed-IsValid (omega arith)

consoleread-Delivers_example :
    Delivers three_typed []
      (deliver (λ i ch. true) false 100 0 (ready three_typed))
      (consoleread (λ i ch. true) false 100 three_typed)
consoleread-Delivers_example =
    consoleread-Delivers (λ i ch. true) false 100 three_typed three_typed-IsValid (omega arith)
