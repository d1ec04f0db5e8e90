-- ===== src/File/Chunks.antt =====
-- filewrite over an inode writes chunk after chunk, and that is one write of all the bytes.
use tron_boss_os.Base.{
  ℕ, zero, suc, ◌+◌, ◌≤◌, ◌<◌, ◌≡◌, ◌≢◌, ◌*◌, Option, some, refl, sym, ap, ◌∙◌, Bool, true, false,
  List, [], ◌∷◌, arith, if◌then◌else◌, ℤ, pos, negsuc, length, length-take, take, drop, eq→==,
}
use tron_boss_os.Content.{Content, writei, t_dev, maxfile, bsize}
use tron_boss_os.Content.Write.{
  length-take-drop, written_at, written_at_lem, written_at_nothing, written_at-parts, writei_writes,
}
use tron_boss_os.Kernel.{add_uint}
use tron_boss_os.File.{
  File, FileType, write_typed, fd_inode, max_chunk, chunk, done, write_loop, filewrite,
}

chunk_le : (n : ℕ) → chunk n ≤ n
chunk_le n = ground arith

chunk_bound : (n : ℕ) → chunk n ≤ max_chunk
chunk_bound n = ground arith

chunk_pos : (n : ℕ) → 0 < n → 0 < chunk n
chunk_pos n lt = ground arith

done_same :
    (n : ℕ) (f : File) {a b : ℕ} {s s' : Content}
    → a ≡ b
    → s ≡ s'
    → done (pos n) (record f { off = a }) s ≡ done (pos n) (record f { off = b }) s'
done_same n f ea es = rw (ea, es) refl

abbrev advance : File → ℕ → File
advance f n = record f { off = f.off + n }

module _ (devsw_write : ℕ → Option (List ℕ → ℤ)) where
  write_loop-step :
      (fuel n c : ℕ) (cs : List ℕ) (f : File) (s : Content)
      → s.inode.type ≢ t_dev
      → f.off ≤ s.inode.size
      → f.off + chunk (length (c ∷ cs)) ≤ maxfile * bsize
      → write_loop devsw_write (suc fuel) n (c ∷ cs) f s
        ≡ write_loop devsw_write fuel n
            (drop (chunk (length (c ∷ cs))) (c ∷ cs))
            (advance f (chunk (length (c ∷ cs))))
            (written_at f.off (take (chunk (length (c ∷ cs))) (c ∷ cs)) s)
  unfolding write_loop
  write_loop-step fuel n c cs f s file at fits =
      let n1 = chunk (length (c ∷ cs)) in
      let bs = take n1 (c ∷ cs) in
      let l : length bs ≡ n1 = length-take n1 (c ∷ cs) (chunk_le (length (c ∷ cs))) in
      let w : writei devsw_write bs f.off s ≡ some (pos n1, written_at f.off bs s) =
        writei_writes devsw_write bs f.off s file at (omega (arith, l, fits))
        ∙ ap (λ (k : ℕ). some (pos k, written_at f.off bs s)) l in
      let a : add_uint f.off n1 ≡ f.off + n1 = omega (arith, fits) in
      rw (write_loop, w, a, eq→== n1 n1 refl) refl

  -- `suc` of the number of bytes is enough fuel.
  write_loop_lem :
      (fuel n : ℕ) (addr : List ℕ) (f : File) (s : Content)
      → length addr < fuel
      → s.inode.type ≢ t_dev
      → f.off ≤ s.inode.size
      → f.off + length addr ≤ maxfile * bsize
      → write_loop devsw_write fuel n addr f s
        ≡ done (pos n) (advance f (length addr)) (written_at f.off addr s)
  unfolding write_loop
  write_loop_lem zero n addr f s lt file at fits = absurd (omega arith)
  write_loop_lem (suc fuel) n [] f s lt file at fits =
      done_same n f (omega arith) (sym (written_at_nothing f.off s at))
  write_loop_lem (suc fuel) n (c ∷ cs) f s lt file at fits =
      let n1 = chunk (length (c ∷ cs)) in
      let sum = length-take-drop n1 (c ∷ cs) in
      let l = length-take n1 (c ∷ cs) (chunk_le (length (c ∷ cs))) in
      let (_, same, behind) = written_at_lem f.off (take n1 (c ∷ cs)) s in
      write_loop-step fuel n c cs f s file at (omega (arith, sum, l, fits))
      ∙ write_loop_lem fuel n (drop n1 (c ∷ cs)) (advance f n1)
          (written_at f.off (take n1 (c ∷ cs)) s)
          (omega (arith, sum, l, chunk_pos (length (c ∷ cs)) (omega arith)))
          (λ e. file (sym same ∙ e)) (omega (arith, l, behind)) (omega (arith, sum, l, fits))
      ∙ done_same n f (omega (arith, sum, l)) (written_at-parts f.off n1 (c ∷ cs) s l)

  -- `filewrite` to a writable file that is an inode but no device, from an offset that is in the
  -- inode or at its end, of bytes that end within MAXFILE blocks: by calls of writei for chunks, each
  -- in a transaction of its own, it comes to the count, with every byte in its place from the file's
  -- offset on, the inode longer if the bytes go beyond its end, and the offset behind them.
  pub filewrite_writes :
      (write_pipe : ℤ) (addr : List ℕ) (f : File) (s : Content)
      → f.writable ≡ true
      → f.type ≡ fd_inode
      → s.inode.type ≢ t_dev
      → f.off ≤ s.inode.size
      → f.off + length addr ≤ maxfile * bsize
      → filewrite devsw_write false write_pipe addr f s
        ≡ done
            (pos (length addr))
            (record f { off = f.off + length addr })
            (written_at f.off addr s)
  unfolding filewrite
  filewrite_writes write_pipe addr f s w t file at fits =
      ap
        (λ (b : Bool).
          if b
          then write_typed devsw_write false write_pipe addr f.type f s
          else done (negsuc 0) f s)
        w
      ∙ ap (λ (ty : FileType). write_typed devsw_write false write_pipe addr ty f s) t
      ∙ write_loop_lem (suc (length addr)) (length addr) addr f s (omega arith) file at fits
