-- ===== src/File/Tests.antt =====
-- The file table at concrete states.
use xv6_extended.Base.{
  ℕ, ◌+◌, ◌≡◌, refl, ap, inl, inr, Bool-cases, true, false, some, none, List, [], ◌∷◌, replicate,
  ◌==◌, if◌then◌else◌, arith, done,
}
use xv6_extended.File.{fd_none, fd_device, Ftable, Closing, Sys, dup_all, close_all}
use xv6_extended.File.Slots.{count}
use xv6_extended.File.Counted.{Counted, Kept}
use xv6_extended.File.Calls.{pipe, call, call-Kept}
use xv6_extended.File.Fork.{fork-exit}

-- The console is file 0, open as descriptors 0, 1 and 2 of this process and of one other.
abbrev console_files : Ftable
console_files f = record {
  kind = if f == 0 then fd_device else fd_none;
  ref = if f == 0 then 6 else 0;
  readable = true;
  writable = true;
  pipe = 0;
  ip = 7;
  off = 0;
  major = 1;
}

abbrev shell : Sys
shell = record {
  files = console_files;
  fds = some 0 ∷ some 0 ∷ some 0 ∷ replicate 13 none;
  calls = [];
}

abbrev other_process : ℕ → ℕ
other_process f = if f == 0 then 3 else 0

shell-Counted : Counted shell other_process
shell-Counted = record {
  refs = record {
    counted = λ f lt. ground arith;
    small = λ f. ground arith;
    idle = λ f lt z. elim (Bool-cases (f == 0)) [
      | inl same ↦ absurd (ground (arith, same, z))
      | inr other ↦ ap (λ b. if b then fd_device else fd_none) other
    ];
  };
  in_table = λ f pos. ground (arith, pos);
  slots = refl;
  room = λ f. ground arith;
}

call-Kept_example : Kept shell other_process (call (pipe 0x80001000 false) shell)
call-Kept_example = call-Kept (pipe 0x80001000 false) shell other_process shell-Counted

fork-exit_example :
    (t : Ftable) × (dup_all shell.fds console_files ≡ done t)
    × Counted (record shell { files = t }) (λ f. count f shell.fds + other_process f)
    × (r : List Closing × Ftable) × (close_all shell.fds ([], t) ≡ done r)
    × Counted (record shell { files = r.1 }) other_process
fork-exit_example = fork-exit shell other_process [] shell-Counted (λ f. ground arith)
