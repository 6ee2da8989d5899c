-- ===== src/Bio/Tests.antt =====
-- Runs of the buffer cache, and the theorems about it at a cache that holds one block.
use os_playground.Base.{ℕ, ◌≡◌, inl, refl, some, true, false, [], ◌∷◌, arith}
use os_playground.Bio.{Block, Bcache, set_buf, binit, bget, acquiresleep, bread_locked}
use os_playground.Bio.Inv.{IsSound}
use os_playground.Bio.Get.{Got, bget_lem}
use os_playground.Bio.System.{get, lock}
use os_playground.Bio.Safety.{Reach, start, further, Reach-IsSound, bread_lem}
use os_playground.Bio.Boot.{binit-IsSound}

-- Block `b` is filled with `b`.
abbrev numbered : ℕ → Block
numbered b k = b

abbrev booted : Bcache
booted = binit numbered 1000

abbrev after_get : Bcache
after_get =
    set_buf 0
      (record (booted.buf 0) { dev = 1; blockno = 5; valid = false; dirty = false; refcnt = 1 })
      booted

abbrev after_lock : Bcache
after_lock = set_buf 0 (record (after_get.buf 0) { locked = true; pid = 7 }) after_get

-- The buffer that was used least recently is recycled.
first_get : bget 1 5 booted ≡ some (0, after_get)
unfolding bget os_playground.Bio.push_bufs
first_get = refl

first_lock : acquiresleep 7 0 after_get ≡ some after_lock
unfolding acquiresleep
first_lock = refl

booted-IsSound : IsSound booted [] numbered
booted-IsSound = binit-IsSound numbered 1000

one_locked : Reach booted [] numbered after_lock [] numbered
one_locked =
    further after_get (0 ∷ []) numbered after_lock [] numbered
      (further booted [] numbered after_get (0 ∷ []) numbered start
        (get 5 0 after_get (omega arith) first_get))
      (lock 7 0 after_lock (inl refl) (omega arith) first_lock)

Reach-IsSound_example : IsSound after_lock [] numbered
Reach-IsSound_example =
    Reach-IsSound booted [] numbered after_lock [] numbered booted-IsSound one_locked

after_lock-IsSound : IsSound after_lock [] numbered
after_lock-IsSound =
    Reach-IsSound booted [] numbered after_lock [] numbered booted-IsSound one_locked

bget_lem_example : Got 1 5 after_lock (bget 1 5 after_lock)
bget_lem_example = bget_lem 1 5 after_lock after_lock-IsSound.all_in after_lock-IsSound.bounds

bread_lem_example :
    (c : Bcache) × (bread_locked 0 after_lock ≡ some c)
    × ((c.buf 0).valid ≡ true)
    × ((c.buf 0).bytes ≡ numbered 5)
bread_lem_example =
    bread_lem after_lock [] numbered 0 after_lock-IsSound (omega arith) refl refl (omega arith)
