-- ===== src/Read/Children/Loop.antt =====
-- src/mp4_box_reader.c: the loop of `mp4_box_children_read` over the boxes of a box.
use libmp.Read.Children.{Env, Down, Head, Out, after, read_head, body}
use libmp.Prelude.{
  ℕ, List, Res, Option, Bool, ◌>>◌, ltb, guard, ◌||◌, leb, none, ◌-◌, ◌+◌, suc, ◌&&◌, eio, true,
  false, ok, some, zero,
}
use libmp.Read.Headers.{RawFile}
use libmp.Read.{Cursor}
use libmp.Read.Handler.{BoxType}

-- `skip_box`: the descriptor goes to the end of the box, of which `count` bytes are read.
unfoldable pub skip_box : ℕ → ℕ → RawFile × Cursor → Res (RawFile × ℕ)
skip_box size before r = do
  guard (leb (before + r.1.count) size) eio
  ok (r.0, r.1.offset + (size - (before + r.1.count)))

-- What follows the check for a truncated box; `before` is the length of the box's head.
unfoldable pub box_read :
    Env → Down → List BoxType → Option ℕ → Head → ℕ → RawFile → ℕ → Option (Res (RawFile × ℕ))
box_read e down path track h before f offset =
    let c : Cursor = record { offset = offset; count = 0 } in
    elim (ltb h.size before || ltb e.size (h.size - before)) [
      | true ↦ some (skip_box h.size before (f, c))
      | false ↦
          after (body e down path track h.kind (h.size - before) f c)
            λ r. some (skip_box h.size before r)
    ]

-- The loop, with `parentReadBytes` and `firstBox`
unfoldable pub children_read :
    ℕ → Env → List BoxType → Option ℕ → ℕ → RawFile → ℕ → ℕ → Bool → Option (Res Out)
children_read zero e path track max_bytes f offset done first = none
children_read (suc fuel) e path track max_bytes f offset done first =
    elim (ltb offset e.size && ltb (done + 8) max_bytes) [
      | false ↦ some (ok record { file = f; count = done; offset = offset })
      | true ↦
          after (some (read_head e path max_bytes done first record { offset = offset; count = 0 }))
            λ r. elim (ltb max_bytes (done + r.0.size)) [
              | true ↦ some (ok record { file = f; count = max_bytes; offset = r.1.offset })
              | false ↦
                  after
                    (box_read e (λ p t m g o. children_read fuel e p t m g o 0 true) path track r.0
                      r.1.count f r.1.offset)
                    λ s. elim r.0.last [
                      | true ↦
                          some (ok record { file = s.0; count = done + r.0.size; offset = s.1 })
                      | false ↦
                          children_read fuel e path track max_bytes s.0 s.1 (done + r.0.size) false
                    ]
            ]
    ]
