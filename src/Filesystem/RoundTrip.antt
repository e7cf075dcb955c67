-- ===== src/Filesystem/RoundTrip.antt =====
-- What is written to a file is what is read back.
use torch_os.Base.{ℕ, ◌+◌, ◌-◌, ◌^◌, ◌≤◌, ◌<◌, ◌≡◌, ◌≢◌, ◌⊎◌, arith, refl, List, Outcome, ok, ◌>>=◌}
use torch_os.Hardware.Ram.{Ram, load8}
use torch_os.Hardware.Bus.{flat}
use torch_os.Strings.Fill.{copied}
use torch_os.Filesystem.{fs_read, fs_write, fs_seek}
use torch_os.Filesystem.Store.{File, Filesystem, put_node}
use torch_os.Filesystem.Files.{
  IsFile, with_file, with_file-IsFile, after_write, after_read, seek-ok, write-ok, read-ok,
}

-- The `n` bytes at `p` in one memory are those at `q` in the other.
abbrev pub SameText : (m : Ram) (p : ℕ) (m' : Ram) (q n : ℕ) → Type 0
SameText m p m' q n = (i : ℕ) → i < n → load8 m' (q + i) ≡ load8 m (p + i)

copied_twice :
    (m : Ram) (a b c n i : ℕ)
    → i < n
    → load8 (copied (copied m b a n) c b n) (c + i) ≡ load8 m (a + i)
unfolding load8
copied_twice m a b c n i h =
    let there : c + i - c ≡ i = omega arith in
    let back : b + i - b ≡ i = omega arith in rw (there, back) (ground arith)

abbrev pub write_and_read :
    (node position size source target : ℕ) → Filesystem Ram → Outcome (ℕ × Filesystem Ram)
write_and_read node position size source target s = do
  (_, s1) ← fs_seek flat node position s
  (_, s2) ← fs_write flat node size source s1
  (_, s3) ← fs_seek flat node position s2
  fs_read flat node size target s3

-- The four calls, and the memory behind them.
pub write_and_read-memory :
    (s : Filesystem Ram) (node position size source target : ℕ) (f : File) (name : List ℕ)
    → IsFile s node name f
    → position ≤ f.canonical_size
    → position + size ≤ f.allocated_size
    → f.canonical_size ≤ f.allocated_size
    → f.allocated_size < 2 ^ 32
    → (f.buffer + position ≤ source) ⊎ (source + size ≤ f.buffer + position)
    → (target ≤ f.buffer + position) ⊎ (f.buffer + position + size ≤ target)
    → (s' : Filesystem Ram) × (write_and_read node position size source target s ≡ ok (size, s'))
      × IsFile s' node name (after_write (record f { offset = position }) size)
      × SameText s.memory source s'.memory target size
      × (s'.memory
          ≡ copied
              (copied s.memory (f.buffer + position) source size)
              target
              (f.buffer + position)
              size)
      × ((q : ℕ) → q ≢ node → s'.nodes q ≡ s.nodes q)
      × (s'.root ≡ s.root)
      × (s'.dirents ≡ s.dirents)
unfolding fs_seek put_node
write_and_read-memory s node position size source target f name i inside fits sizes small apart
      apart' =
    let f1 : File = record f { offset = position } in
    let s1 = with_file name node f1 s.memory s in
    let i1 = with_file-IsFile s s.memory node f f1 name i in
    let f2 = after_write f1 size in
    let m2 = copied s.memory (f.buffer + position) source size in
    let s2 = with_file name node f2 m2 s1 in
    let i2 = with_file-IsFile s1 m2 node f1 f2 name i1 in
    let f3 : File = record f2 { offset = position } in
    let s3 = with_file name node f3 m2 s2 in
    let i3 = with_file-IsFile s2 m2 node f2 f3 name i2 in
    let m4 = copied m2 target (f.buffer + position) size in
    (
      with_file name node (after_read f3 size) m4 s3,
      rw (
        seek-ok s node position f name i (omega arith),
        write-ok s1 node size source f1 name i1 inside fits small apart,
        seek-ok s2 node position f2 name i2 (omega arith),
        read-ok s3 node size target f3 name i3 (omega arith) (omega arith) apart',
      ),
      with_file-IsFile s3 m4 node f3 (after_read f3 size) name i3,
      λ j h. copied_twice s.memory source (f.buffer + position) target size j h,
      refl,
      λ q ne. ground arith,
      refl,
      refl,
    )

-- For a ramdisk file, a position in it and a range that fits its buffer, seeking, writing, seeking
-- again and reading the same size succeeds, gives at the target the bytes of the source, and
-- leaves the file as one write does, if neither copy's destination starts inside its source.
pub write_and_read-IsFile :
    (s : Filesystem Ram) (node position size source target : ℕ) (f : File) (name : List ℕ)
    → IsFile s node name f
    → position ≤ f.canonical_size
    → position + size ≤ f.allocated_size
    → f.canonical_size ≤ f.allocated_size
    → f.allocated_size < 2 ^ 32
    → (f.buffer + position ≤ source) ⊎ (source + size ≤ f.buffer + position)
    → (target ≤ f.buffer + position) ⊎ (f.buffer + position + size ≤ target)
    → (s' : Filesystem Ram) × (write_and_read node position size source target s ≡ ok (size, s'))
      × IsFile s' node name (after_write (record f { offset = position }) size)
      × SameText s.memory source s'.memory target size
write_and_read-IsFile s node position size source target f name i inside fits sizes small apart
      apart' =
    let (s', returns, i', text, _, _, _, _) =
      write_and_read-memory s node position size source target f name i inside fits sizes small
        apart apart' in
    (s', returns, i', text)
