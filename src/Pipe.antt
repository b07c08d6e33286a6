-- ===== src/Pipe.antt =====
-- lib/pipe.c: pipes, opened by the name of a device, over the operations of the device.
-- A pipe is its number in the list of all pipes ever opened, a device its number in the table of
-- devices. `bathos_arch_find_dev`, the success of the allocation and the operations of the devices
-- are the caller's; W is what the operations act on.
pub mod Life
pub mod Notify
mod Tests
use bathos_mcuio.Prelude.{
  ℕ, zero, suc, ◌+◌, Bool, true, false, not, Option, none, some, List, [], ◌∷◌, ◌++◌, length, set,
  get_or, ◌==◌, if◌then◌else◌,
}
use bathos_mcuio.Prelude.Int.{ℤ, pos, negsuc}
use bathos_mcuio.Errno.{eperm, enxio, ebadf, einval, enfile}
use bathos_mcuio.Dev.{mode_has}

-- The events that pipe.c declares and triggers.
pub data PipeEvent : Type 0 where
  input_pipe_opened output_pipe_opened input_pipe_closed output_pipe_closed : PipeEvent
  pipe_really_closed : PipeEvent

-- `struct bathos_pipe`; `dev` is NULL when the pipe is free.
pub record Pipe : Type 0 where
  pub name : List ℕ
  pub mode : ℕ
  pub dev : Option ℕ

-- `struct bathos_dev_ops`, each operation NULL or a function of the pipe. A read yields its bytes.
pub record DevOps (W : Type 0) : Type 0 where
  pub open_op : Option (Pipe → W → ℤ × W)
  pub read_op : Option (Pipe → ℕ → W → ℤ × List ℕ × W)
  pub write_op : Option (Pipe → List ℕ → W → ℤ × W)
  pub close_op : Option (Pipe → W → ℤ × W)
  pub ioctl_op : Option (Pipe → ℕ → W → ℤ × W)

-- `struct bathos_dev`: its name and operations; the list of its pipes is part of the state.
pub record Device (W : Type 0) : Type 0 where
  pub dev_name : List ℕ
  pub ops : DevOps W

-- The pipes, the list of each device's pipes, bathos_errno, the events triggered and the world.
pub record Pipes (W : Type 0) : Type 0 where
  pub pipes : List Pipe
  pub lists : List (List ℕ)
  pub errno : ℤ
  pub events : List (PipeEvent × ℕ)
  pub world : W

abbrev pub no_pipe : Pipe
no_pipe = record { name = []; mode = 0; dev = none }

abbrev pub same_name : List ℕ → List ℕ → Bool
same_name [] [] = true
same_name [] (y ∷ ys) = false
same_name (x ∷ xs) [] = false
same_name (x ∷ xs) (y ∷ ys) = if x == y then same_name xs ys else false

-- `bathos_errno = stat < 0 ? -stat : 0`
abbrev pub errno_of : ℤ → ℤ
errno_of (pos n) = pos 0
errno_of (negsuc n) = pos (suc n)

-- `list_del` of a pipe
abbrev pub remove : ℕ → List ℕ → List ℕ
remove p [] = []
remove p (q ∷ qs) = if q == p then qs else q ∷ remove p qs

module _ {W : Type 0} where
  -- The loop of `bathos_find_dev`, from device `i` on.
  unfoldable pub search_dev : List (Device W) → ℕ → List ℕ → Option ℕ
  search_dev [] i name = none
  search_dev (d ∷ ds) i name =
      let rest = search_dev ds (suc i) name in if same_name name d.dev_name then some i else rest

  abbrev pub no_ops : DevOps W
  no_ops = record {
    open_op = none;
    read_op = none;
    write_op = none;
    close_op = none;
    ioctl_op = none;
  }

  abbrev pub ops_of : List (Device W) → ℕ → DevOps W
  ops_of [] i = no_ops
  ops_of (d ∷ ds) zero = d.ops
  ops_of (d ∷ ds) (suc i) = ops_of ds i

  abbrev pub fail : ℤ → Pipes W → Pipes W
  fail e s = record s { errno = e }

  -- `bathos_find_dev`
  unfoldable pub find_dev : List (Device W) → (List ℕ → Option ℕ) → List ℕ → Option ℕ
  find_dev devices arch name = elim (search_dev devices 0 name) [
    | some i ↦ some i
    | none ↦ arch name
  ]

  -- `pipe_open` behind the call of `open`: the list of the device and the event.
  unfoldable pub add_pipe : Pipe → ℕ → Pipes W → Option ℕ × Pipes W
  add_pipe p i s =
      let n = length s.pipes in
      let e = if mode_has p.mode 1 then input_pipe_opened else output_pipe_opened in
      (
        some n,
        record s {
          pipes = s.pipes ++ (p ∷ []);
          lists = set s.lists i (n ∷ get_or s.lists i []);
          events = s.events ++ ((e, n) ∷ []);
        },
      )

  -- `pipe_open` with the device found.
  unfoldable pub open_dev : DevOps W → Pipe → ℕ → Pipes W → Option ℕ × Pipes W
  open_dev ops p i s = elim ops.open_op [
    | none ↦ add_pipe p i s
    | some op ↦
        let (stat, w) = op p s.world in
        let s' : Pipes W = record s { world = w } in
        elim stat as (λ _. Option ℕ × Pipes W) [
          | pos zero ↦ add_pipe p i s'
          | pos (suc e) ↦ (none, fail (pos (suc e)) s')
          | negsuc e ↦ (none, fail (negsuc e) s')
        ]
  ]

  -- `pipe_open`; `space` tells whether the allocation of the pipe succeeds.
  unfoldable pub pipe_open :
      List (Device W) → (List ℕ → Option ℕ) → Bool → List ℕ → ℕ → Pipes W → Option ℕ × Pipes W
  pipe_open devices arch space name mode s =
      let opened : Option ℕ × Pipes W = elim (find_dev devices arch name) [
        | none ↦ (none, fail (pos enxio) s)
        | some i ↦
            open_dev (ops_of devices i) (record { name = name; mode = mode; dev = some i }) i s
      ] in
      if mode == 0
      then (none, fail (pos einval) s)
      else if not space
      then (none, fail (pos enfile) s)
      else opened

  -- `pipe_close`
  unfoldable pub pipe_close : ℕ → Pipes W → ℤ × Pipes W
  pipe_close n s =
      let p = get_or s.pipes n no_pipe in
      let e = if mode_has p.mode 1 then input_pipe_closed else output_pipe_closed in
      elim p.dev [
        | none ↦ (negsuc 0, fail (pos ebadf) s)
        | some i ↦
            (pos 0, record s { events = s.events ++ ((e, n) ∷ (pipe_really_closed, n) ∷ []) })
      ]

  -- `pipe_read`
  unfoldable pub pipe_read : List (Device W) → ℕ → ℕ → Pipes W → ℤ × List ℕ × Pipes W
  pipe_read devices n len s =
      let p = get_or s.pipes n no_pipe in
      elim p.dev [
        | none ↦ (negsuc 0, [], fail (pos ebadf) s)
        | some i ↦
            let call : ℤ × List ℕ × Pipes W = elim (ops_of devices i).read_op [
              | none ↦ (negsuc 0, [], fail (pos eperm) s)
              | some op ↦
                  let (stat, bytes, w) = op p len s.world in
                  (stat, bytes, record s { world = w; errno = errno_of stat })
            ] in
            if not (mode_has p.mode 1) then (negsuc 0, [], fail (pos eperm) s) else call
      ]

  -- `pipe_write`
  unfoldable pub pipe_write : List (Device W) → ℕ → List ℕ → Pipes W → ℤ × Pipes W
  pipe_write devices n bytes s =
      let p = get_or s.pipes n no_pipe in
      elim p.dev [
        | none ↦ (negsuc 0, fail (pos ebadf) s)
        | some i ↦
            let call : ℤ × Pipes W = elim (ops_of devices i).write_op [
              | none ↦ (negsuc 0, fail (pos eperm) s)
              | some op ↦
                  let (stat, w) = op p bytes s.world in
                  (stat, record s { world = w; errno = errno_of stat })
            ] in
            if not (mode_has p.mode 2) then (negsuc 0, fail (pos eperm) s) else call
      ]

  -- `pipe_ioctl`
  unfoldable pub pipe_ioctl : List (Device W) → ℕ → ℕ → Pipes W → ℤ × Pipes W
  pipe_ioctl devices n code s =
      let p = get_or s.pipes n no_pipe in
      elim p.dev [
        | none ↦ (negsuc 0, fail (pos ebadf) s)
        | some i ↦ elim (ops_of devices i).ioctl_op [
          | none ↦ (negsuc 0, fail (pos eperm) s)
          | some op ↦
              let (stat, w) = op p code s.world in
              (stat, record s { world = w; errno = errno_of stat })
        ]
      ]

  -- `ops->close`, if the device has no other pipe.
  unfoldable pub close_dev : DevOps W → List ℕ → Pipe → W → W
  close_dev ops (q ∷ qs) p w = w
  close_dev ops [] p w = elim ops.close_op [ none ↦ w | some op ↦ (op p w).1 ]

  -- `do_free_pipe`, the handler of pipe_really_closed; nothing for a pipe without a device.
  unfoldable pub do_free_pipe : List (Device W) → ℕ → Pipes W → Pipes W
  do_free_pipe devices n s =
      let p = get_or s.pipes n no_pipe in
      elim p.dev [
        | none ↦ s
        | some i ↦
            let left = remove n (get_or s.lists i []) in
            record s {
              pipes = set s.pipes n (record p { dev = none });
              lists = set s.lists i left;
              world = close_dev (ops_of devices i) left p s.world;
            }
      ]
