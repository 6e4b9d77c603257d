-- ===== src/Device/Request/Laws.antt =====
-- What a transfer of the device moves, and what each exit gives back.
use praid.Common.{ℕ, ◌+◌, ◌≡◌, refl, ◌∙◌, arith, ==_iff, not, true}
use praid.Common.{Option, none, some, List, [], ◌∷◌, inl, inr, if◌then◌else◌, ◌⊎◌}
use praid.Bio.{Direction, read, write}
use praid.Device.Word.{Memory}
use praid.Device.Request.{
  Services, ok, Undo, kunmap, free_page, bio_put, memcpy, fill_page, transfer, pciev_submit_bio,
  out_map,
}

-- The kernel gives what one call asks for, up to the transfer.
pub record IsReady (s : Services) (size : ℕ) : Type 0 where
  pub has_bio : s.bio_alloc ≡ true
  pub has_page : s.alloc_page ≡ true
  pub has_map : s.kmap ≡ true
  pub adds : s.bio_add_page ≡ size

IsReady-goes :
    (s : Services) (buffer offset size sector : ℕ) (way : Direction) (mem disk : Memory)
    → IsReady s size
    → pciev_submit_bio s buffer offset size sector way mem disk
      ≡ transfer buffer offset size way mem
          (s.disk_left way sector size offset (fill_page way mem buffer offset size s.page) disk)
          (s.submit_bio_wait way sector size offset
            (fill_page way mem buffer offset size s.page)
            disk)
unfolding pciev_submit_bio
IsReady-goes s buffer offset size sector way mem disk h =
    rw (h.has_bio, h.has_page, h.has_map, (==_iff s.bio_add_page size).1 h.adds)

-- What the kernel gives one call, in the order of the requests.
abbrev pub held : Services → List Undo
held s =
    if not s.bio_alloc
    then []
    else if not s.alloc_page
    then bio_put ∷ []
    else if not s.kmap
    then free_page ∷ bio_put ∷ []
    else kunmap ∷ free_page ∷ bio_put ∷ []

transfer_exits :
    (buffer offset size : ℕ) (way : Direction) (mem disk left : Memory)
    (o : Option (Memory × Memory))
    → let r = transfer buffer offset size way mem left o in
      (r.undone ≡ kunmap ∷ free_page ∷ bio_put ∷ [])
      × ((r.ret ≡ ok) ⊎ ((r.mem ≡ mem) × ((r.disk ≡ disk) ⊎ (o ≡ none))))
unfolding transfer
transfer_exits buffer offset size way mem disk left none = (refl, inr (refl, inr refl))
transfer_exits buffer offset size way mem disk left (some (page, disk')) = (refl, inl refl)

-- A call gives back all that it was given, the latest first, on every exit. Unless it returns 0 it
-- has not changed the buffer, and it has not changed the disk either unless the transfer itself has
-- failed.
pub pciev_submit_bio_exits :
    (s : Services) (buffer offset size sector : ℕ) (way : Direction) (mem disk : Memory)
    → let r = pciev_submit_bio s buffer offset size sector way mem disk in
      (r.undone ≡ held s)
      × ((r.ret ≡ ok)
          ⊎ ((r.mem ≡ mem)
              × ((r.disk ≡ disk)
                  ⊎ (s.submit_bio_wait way sector size offset
                        (fill_page way mem buffer offset size s.page)
                        disk
                      ≡ none))))
unfolding pciev_submit_bio
pciev_submit_bio_exits s buffer offset size sector way mem disk = ground (
  arith,
  transfer_exits buffer offset size way mem disk
      (s.disk_left way sector size offset (fill_page way mem buffer offset size s.page) disk)
      (s.submit_bio_wait way sector size offset (fill_page way mem buffer offset size s.page) disk),
)

pub read_lem :
    (s : Services) (buffer offset size sector : ℕ) (mem disk : Memory)
    → IsReady s size
    → (page' disk' : Memory)
    → s.submit_bio_wait read sector size offset s.page disk ≡ some (page', disk')
    → pciev_submit_bio s buffer offset size sector read mem disk
      ≡ out_map ok (memcpy mem (buffer + offset) page' offset size) disk'
unfolding fill_page transfer
read_lem s buffer offset size sector mem disk h page' disk' e =
    IsReady-goes s buffer offset size sector read mem disk h ∙ rw e

pub write_lem :
    (s : Services) (buffer offset size sector : ℕ) (mem disk : Memory)
    → IsReady s size
    → (page' disk' : Memory)
    → s.submit_bio_wait write sector size offset
        (memcpy s.page offset mem (buffer + offset) size)
        disk
      ≡ some (page', disk')
    → pciev_submit_bio s buffer offset size sector write mem disk ≡ out_map ok mem disk'
unfolding fill_page transfer
write_lem s buffer offset size sector mem disk h page' disk' e =
    IsReady-goes s buffer offset size sector write mem disk h ∙ rw e
