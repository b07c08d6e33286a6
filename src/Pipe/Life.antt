-- ===== src/Pipe/Life.antt =====
-- The life of a pipe: opened, read and written, closed.
use bathos_mcuio.Prelude.{
  ◌≢◌, ◌+◌, sym, length-append, length-set, subst, get_or-set_ne, ℕ, zero, suc, ◌<◌, ◌≡◌, refl, ap,
  ◌∙◌, true, none, some, List, [], ◌∷◌, ◌++◌, length, set, get_or, get_or-set_self, arith,
}
use bathos_mcuio.Prelude.Int.{ℤ, pos, negsuc}
use bathos_mcuio.Errno.{ebadf}
use bathos_mcuio.Dev.{mode_has}
use bathos_mcuio.Pipe.{
  Pipe, Pipes, Device, no_pipe, errno_of, fail, add_pipe, pipe_close, pipe_read, pipe_write,
  pipe_ioctl, do_free_pipe, ops_of, close_dev, remove,
}

get_or-end {ℓ} : {A : Type ℓ} (xs : List A) (x d : A) → get_or (xs ++ (x ∷ [])) (length xs) d ≡ x
get_or-end [] x d = refl
get_or-end (y ∷ xs) x d = get_or-end xs x d

get_or-front {ℓ} :
    {A : Type ℓ} (xs ys : List A) (i : ℕ) (d : A)
    → i < length xs
    → get_or (xs ++ ys) i d ≡ get_or xs i d
get_or-front [] ys i d h = absurd (omega (arith, h))
get_or-front (x ∷ xs) ys zero d h = refl
get_or-front (x ∷ xs) ys (suc i) d h = get_or-front xs ys i d (omega (arith, h))

set-set {ℓ} : {A : Type ℓ} (xs : List A) (i : ℕ) (a b : A) → set (set xs i a) i b ≡ set xs i b
set-set [] i a b = refl
set-set (x ∷ xs) zero a b = refl
set-set (x ∷ xs) (suc i) a b = ap (λ ys. x ∷ ys) (set-set xs i a b)

set-get_or {ℓ} :
    {A : Type ℓ} (xs : List A) (i : ℕ) (d : A) → i < length xs → set xs i (get_or xs i d) ≡ xs
set-get_or [] i d h = absurd (omega (arith, h))
set-get_or (x ∷ xs) zero d h = refl
set-get_or (x ∷ xs) (suc i) d h = ap (λ ys. x ∷ ys) (set-get_or xs i d (omega (arith, h)))

module _ {W : Type 0} (devices : List (Device W)) where
  abbrev added : Pipe → ℕ → Pipes W → Pipes W
  added p i s = (add_pipe p i s).1

  -- The state that freeing a pipe leaves, `left` being the other pipes of its device.
  without : ℕ → ℕ → List ℕ → Pipe → Pipes W → Pipes W
  without n i left p s = record s {
    pipes = set s.pipes n (record p { dev = none });
    lists = set s.lists i left;
    world = close_dev (ops_of devices i) left p s.world;
  }

  do_free_pipe-without :
      (n i : ℕ) (p : Pipe) (mine left : List ℕ) (s : Pipes W)
      → get_or s.pipes n no_pipe ≡ p
      → p.dev ≡ some i
      → get_or s.lists i [] ≡ mine
      → remove n mine ≡ left
      → do_free_pipe devices n s ≡ without n i left p s
  unfolding do_free_pipe without
  do_free_pipe-without n i p mine left s at dev list gone =
      let here : (get_or s.pipes n no_pipe).dev ≡ some i = ap (λ x. x.dev) at ∙ dev in
      subst (λ x. do_free_pipe devices n s ≡ without n i left x s) at
        (simp (do_free_pipe, here, list, gone) refl)

  -- Two pipes of a device that has no others, of which m is freed and then n: the device is left
  -- alone, then closed with the pipe that goes last.
  free_both :
      (m n i : ℕ) (p q : Pipe) (mine : List ℕ) (s : Pipes W) (op : Pipe → W → ℤ × W)
      → m ≢ n
      → i < length s.lists
      → get_or s.pipes m no_pipe ≡ p
      → get_or s.pipes n no_pipe ≡ q
      → p.dev ≡ some i
      → q.dev ≡ some i
      → get_or s.lists i [] ≡ mine
      → remove m mine ≡ n ∷ []
      → (ops_of devices i).close_op ≡ some op
      → ((do_free_pipe devices m s).world ≡ s.world)
        × ((do_free_pipe devices n (do_free_pipe devices m s)).world ≡ (op q s.world).1)
        × ((do_free_pipe devices n (do_free_pipe devices m s)).lists ≡ set s.lists i [])
  unfolding without close_dev
  free_both m n i p q mine s op ne h atm atn devm devn list gone close =
      let s1 = without m i (n ∷ []) p s in
      let one = do_free_pipe-without m i p mine (n ∷ []) s atm devm list gone in
      let at : get_or s1.pipes n no_pipe ≡ q =
        get_or-set_ne s.pipes m n (record p { dev = none }) no_pipe ne ∙ atn in
      let last = get_or-set_self s.lists i (n ∷ []) [] h in
      let empty : remove n (n ∷ []) ≡ [] = ground arith in
      let two = do_free_pipe-without n i q (n ∷ []) [] s1 at devn last empty in
      rw (one, two) (refl, rw (close_dev, close) refl, set-set s.lists i (n ∷ []) [])

  -- Of two pipes that pipe_open adds to a device that has no others and has a close operation,
  -- either can be freed first: that changes nothing behind the device's operations, freeing the
  -- other calls close once, with the pipe freed last, and the lists of pipes are then as before.
  pub do_free_pipe-add_pipe :
      (p q : Pipe) (i : ℕ) (s : Pipes W) (op : Pipe → W → ℤ × W)
      → p.dev ≡ some i
      → q.dev ≡ some i
      → i < length s.lists
      → get_or s.lists i [] ≡ []
      → (ops_of devices i).close_op ≡ some op
      → let m = length s.pipes in
        let n = length (added p i s).pipes in
        let both = added q i (added p i s) in
        let free = do_free_pipe devices in
        ((free m both).world ≡ s.world)
        × ((free n (free m both)).world ≡ (op q s.world).1)
        × ((free n (free m both)).lists ≡ s.lists)
        × ((free n both).world ≡ s.world)
        × ((free m (free n both)).world ≡ (op p s.world).1)
        × ((free m (free n both)).lists ≡ s.lists)
  unfolding add_pipe
  do_free_pipe-add_pipe p q i s op devp devq h none_open close =
      let m = length s.pipes in
      let n = length (added p i s).pipes in
      let both = added q i (added p i s) in
      let size : n ≡ m + 1 = length-append s.pipes (p ∷ []) in
      let mn : m ≢ n = λ e. omega (arith, size, e) in
      let nm : n ≢ m = λ e. omega (arith, size, e) in
      let at_n = get_or-end (added p i s).pipes q no_pipe in
      let at_m : get_or both.pipes m no_pipe ≡ p =
        get_or-front (added p i s).pipes (q ∷ []) m no_pipe (omega (arith, size))
        ∙ get_or-end s.pipes p no_pipe in
      let one_size = length-set s.lists i (m ∷ get_or s.lists i []) in
      let one = get_or-set_self s.lists i (m ∷ get_or s.lists i []) [] h in
      let two =
        get_or-set_self (added p i s).lists i (n ∷ get_or (added p i s).lists i []) []
          (omega (arith, one_size, h)) in
      let list : get_or both.lists i [] ≡ n ∷ m ∷ [] =
        two ∙ ap (λ x. n ∷ x) (one ∙ ap (λ x. m ∷ x) none_open) in
      let size2 = length-set (added p i s).lists i (n ∷ get_or (added p i s).lists i []) in
      let inside : i < length both.lists = omega (arith, size2, one_size, h) in
      let back : set both.lists i [] ≡ s.lists =
        set-set (added p i s).lists i (n ∷ get_or (added p i s).lists i []) []
        ∙ set-set s.lists i (m ∷ get_or s.lists i []) []
        ∙ ap (set s.lists i) (sym none_open)
        ∙ set-get_or s.lists i [] h in
      let gone_m : remove m (n ∷ m ∷ []) ≡ n ∷ [] = ground (arith, nm) in
      let gone_n : remove n (n ∷ m ∷ []) ≡ m ∷ [] = ground arith in
      let (a, b, c) =
        free_both m n i p q (n ∷ m ∷ []) both op mn inside at_m at_n devp devq list gone_m close in
      let (d, e, f) =
        free_both n m i q p (n ∷ m ∷ []) both op nm inside at_n at_m devq devp list gone_n close in
      (a, b, c ∙ back, d, e, f ∙ back)

  -- On a pipe that is free, reading, writing, ioctl and closing return -1 with errno EBADF, and
  -- leave the devices and the events alone.
  pipe_free-refused :
      (n len : ℕ) (bytes : List ℕ) (s : Pipes W)
      → (get_or s.pipes n no_pipe).dev ≡ none
      → (pipe_read devices n len s ≡ (negsuc 0, [], fail (pos ebadf) s))
        × (pipe_write devices n bytes s ≡ (negsuc 0, fail (pos ebadf) s))
        × (pipe_ioctl devices n len s ≡ (negsuc 0, fail (pos ebadf) s))
        × (pipe_close n s ≡ (negsuc 0, fail (pos ebadf) s))
  unfolding pipe_read pipe_write pipe_ioctl pipe_close
  pipe_free-refused n len bytes s e = (
    rw (pipe_read, e) refl,
    rw (pipe_write, e) refl,
    rw (pipe_ioctl, e) refl,
    rw (pipe_close, e) refl,
  )

  -- A read of a pipe that is open for input, on a device with a read operation, returns what that
  -- operation returns, with its bytes, and the errno is 0 for a success and the code for an error.
  pub pipe_read-passed :
      (n i len : ℕ) (s : Pipes W) (op : Pipe → ℕ → W → ℤ × List ℕ × W)
      → (get_or s.pipes n no_pipe).dev ≡ some i
      → mode_has (get_or s.pipes n no_pipe).mode 1 ≡ true
      → (ops_of devices i).read_op ≡ some op
      → pipe_read devices n len s ≡ (
        (op (get_or s.pipes n no_pipe) len s.world).0,
        (op (get_or s.pipes n no_pipe) len s.world).1,
        record s {
          errno = errno_of (op (get_or s.pipes n no_pipe) len s.world).0;
          world = (op (get_or s.pipes n no_pipe) len s.world).2;
        },
      )
  unfolding pipe_read
  pipe_read-passed n i len s op e m h = ground (arith, e, m, h)

  -- The same for a write of a pipe that is open for output.
  pub pipe_write-passed :
      (n i : ℕ) (bytes : List ℕ) (s : Pipes W) (op : Pipe → List ℕ → W → ℤ × W)
      → (get_or s.pipes n no_pipe).dev ≡ some i
      → mode_has (get_or s.pipes n no_pipe).mode 2 ≡ true
      → (ops_of devices i).write_op ≡ some op
      → pipe_write devices n bytes s ≡ (
        (op (get_or s.pipes n no_pipe) bytes s.world).0,
        record s {
          errno = errno_of (op (get_or s.pipes n no_pipe) bytes s.world).0;
          world = (op (get_or s.pipes n no_pipe) bytes s.world).1;
        },
      )
  unfolding pipe_write
  pipe_write-passed n i bytes s op e m h = ground (arith, e, m, h)
