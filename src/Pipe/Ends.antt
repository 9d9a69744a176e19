-- ===== src/Pipe/Ends.antt =====
-- The two ends of a pipe: who may still read, and when its page is freed.
use operating_system.Common.{◌≡◌, arith, Bool, true, false, not, [], ◌∷◌, if◌then◌else◌}
use operating_system.Pipe.{Pipe, pipeclose, at_nread, at_nwrite}

-- Closing one end after the other frees the page at the second call, and at that one only,
-- whichever end goes first; each call wakes those who sleep on the other end.
pipeclose_both :
    (p : Pipe) (writable : Bool)
    → p.readopen ≡ true
    → p.writeopen ≡ true
    → ((pipeclose writable p).freed ≡ false)
      × ((pipeclose (not writable) (pipeclose writable p).pipe).freed ≡ true)
      × ((pipeclose writable p).wakes ≡ (if writable then at_nread else at_nwrite) ∷ [])
      × ((pipeclose (not writable) (pipeclose writable p).pipe).wakes
          ≡ (if writable then at_nwrite else at_nread) ∷ [])
unfolding pipeclose
pipeclose_both p true r w = ground arith
pipeclose_both p false r w = ground arith
