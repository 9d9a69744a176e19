-- ===== src/Pipe/Examples.antt =====
-- Pipes at concrete inputs.
use operating_system.Common.{ℕ, zero, suc, ◌≡◌, refl, arith, true, false, List, [], ◌∷◌, ◌++◌}
use operating_system.Pipe.{Pipe, pipewrite, piperead}
use operating_system.Pipe.Ring.{IsValid, contents}
use operating_system.Pipe.Stream.{
  WriteSpec, ReadSpec, room, pipewrite_lem, piperead_lem, Call, trace, trace_fifo,
}

abbrev zeros : ℕ → List ℕ
zeros zero = []
zeros (suc n) = 0 ∷ zeros n

-- counters about to run round
abbrev late : Pipe
late = record {
  buf = zeros 512;
  nread = 0xffff_fffe;
  nwrite = 0xffff_ffff;
  readopen = true;
  writeopen = true;
}

late-IsValid : IsValid late
late-IsValid = record {
  room = refl;
  read_word = omega arith;
  write_word = omega arith;
  fits = omega arith;
}

pipewrite_example :
    WriteSpec false 3 (1 ∷ 2 ∷ 3 ∷ []) late (room late) (pipewrite false 3 (1 ∷ 2 ∷ 3 ∷ []) late)
pipewrite_example = pipewrite_lem false 3 (1 ∷ 2 ∷ 3 ∷ []) late late-IsValid

piperead_example : ReadSpec true 5 late (piperead true 5 late)
piperead_example = piperead_lem true 5 late late-IsValid

abbrev calls : List Call
calls =
    Call.write false (7 ∷ 8 ∷ [])
    ∷ Call.read false 2
    ∷ Call.write true (9 ∷ [])
    ∷ Call.read false 9
    ∷ []

trace_fifo_example :
    (trace late calls).got_out ++ contents (trace late calls).pipe
    ≡ contents late ++ (trace late calls).put_in
trace_fifo_example = trace_fifo calls late late-IsValid

got_in_order : (trace late calls).got_out ≡ 0 ∷ 7 ∷ 8 ∷ 9 ∷ []
unfolding trace pipewrite piperead
got_in_order = refl

-- 512 bytes wait
abbrev stuffed : Pipe
stuffed = record late { nwrite = 510 }
