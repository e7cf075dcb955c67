-- ===== src/Filesystem/Files.antt =====
-- What the operations do to a file of the ramdisk over plain memory, on every branch.
use torch_os.Base.{
  ℕ, ◌+◌, ◌^◌, ◌≤◌, ◌<◌, ◌≡◌, ◌≢◌, ◌⊎◌, inl, inr, arith, false, ◌==◌, ltb, max, add32, some, List,
  Outcome, ok, panic, Bool-cases,
}
use torch_os.Hardware.Ram.{Ram}
use torch_os.Hardware.Bus.{flat}
use torch_os.Strings.Fill.{copied, memcpy-copied}
use torch_os.Filesystem.{ramdisk_read, ramdisk_write, ramdisk_seek, fs_read, fs_write, fs_seek}
use torch_os.Filesystem.Store.{null, File, fs_file, ramdisk, Node, Filesystem, load_node, put_node}

-- The ramdisk's node with the state `f`.
abbrev pub file_node : List ℕ → File → Node
file_node name f = record {
  name = name;
  content = fs_file f;
  read = some ramdisk;
  write = some ramdisk;
  seek = some ramdisk;
}

-- At `node` stands a file of the ramdisk, with the state `f`.
pub record IsFile (s : Filesystem Ram) (node : ℕ) (name : List ℕ) (f : File) : Type 0 where
  pub address : node ≢ null
  pub there : s.nodes node ≡ some (file_node name f)

pub load_node-ok :
    (s : Filesystem Ram) (node : ℕ) (n : Node)
    → node ≢ null
    → s.nodes node ≡ some n
    → load_node node s ≡ ok n
unfolding load_node
load_node-ok s node n ne there =
    let test : (node == null) ≡ false = ground arith in rw (test, there)

-- The same file in another state, over another memory.
abbrev pub with_file : List ℕ → ℕ → File → Ram → Filesystem Ram → Filesystem Ram
with_file name node f m s = put_node node (file_node name f) (record s { memory = m })

pub with_file-IsFile :
    (s : Filesystem Ram) (m : Ram) (node : ℕ) (f f' : File) (name : List ℕ)
    (i : IsFile s node name f)
    → IsFile (with_file name node f' m s) node name f'
unfolding put_node
with_file-IsFile s m node f f' name i = record { address = i.address; there = ground arith }

-- Where a file stands after `size` bytes have been written, or read.
abbrev pub after_write : File → ℕ → File
after_write f size = record f {
  canonical_size = max f.canonical_size (f.offset + size);
  offset = f.offset + size;
}

abbrev pub after_read : File → ℕ → File
after_read f size = record f { offset = f.offset + size }

pub seek-ok :
    (s : Filesystem Ram) (node position : ℕ) (f : File) (name : List ℕ) (i : IsFile s node name f)
    → position ≤ f.allocated_size
    → fs_seek flat node position s
      ≡ ok (position, with_file name node (record f { offset = position }) s.memory s)
unfolding fs_seek ramdisk_seek
seek-ok s node position f name i fits =
    let there = load_node-ok s node (file_node name f) i.address i.there in
    let test : ltb f.allocated_size position ≡ false = ground arith in rw (there, there, test)

pub write-ok :
    (s : Filesystem Ram) (node size buffer : ℕ) (f : File) (name : List ℕ)
    (i : IsFile s node name f)
    → f.offset ≤ f.canonical_size
    → f.offset + size ≤ f.allocated_size
    → f.allocated_size < 2 ^ 32
    → (f.buffer + f.offset ≤ buffer) ⊎ (buffer + size ≤ f.buffer + f.offset)
    → fs_write flat node size buffer s
      ≡ ok (
        size,
        with_file name node
            (after_write f size)
            (copied s.memory (f.buffer + f.offset) buffer size)
            s,
      )
unfolding fs_write ramdisk_write
write-ok s node size buffer f name i inside fits small apart =
    let there = load_node-ok s node (file_node name f) i.address i.there in
    let sum : add32 f.offset size ≡ f.offset + size = omega arith in
    let test1 : ltb f.canonical_size f.offset ≡ false = ground arith in
    let test2 : ltb f.allocated_size (f.offset + size) ≡ false = ground arith in
    rw (
      there,
      there,
      sum,
      test1,
      test2,
      memcpy-copied (f.buffer + f.offset) buffer size s.memory apart,
    )

pub read-ok :
    (s : Filesystem Ram) (node size buffer : ℕ) (f : File) (name : List ℕ)
    (i : IsFile s node name f)
    → f.offset + size ≤ f.canonical_size
    → f.canonical_size < 2 ^ 32
    → (buffer ≤ f.buffer + f.offset) ⊎ (f.buffer + f.offset + size ≤ buffer)
    → fs_read flat node size buffer s
      ≡ ok (
        size,
        with_file name node
            (after_read f size)
            (copied s.memory buffer (f.buffer + f.offset) size)
            s,
      )
unfolding fs_read ramdisk_read
read-ok s node size buffer f name i fits small apart =
    let there = load_node-ok s node (file_node name f) i.address i.there in
    let sum : add32 f.offset size ≡ f.offset + size = omega arith in
    let test : ltb f.canonical_size (f.offset + size) ≡ false = ground arith in
    rw (there, there, sum, test, memcpy-copied buffer (f.buffer + f.offset) size s.memory apart)

-- `fs_write` of `size` bytes from `buffer` to a file in the state `f`, by its outcome.
pub data Written (s : Filesystem Ram) (node : ℕ) (name : List ℕ) (f : File) (size buffer : ℕ)
    : Outcome (ℕ × Filesystem Ram) → Type 0 where
  written :
      f.offset ≤ f.canonical_size
      → f.offset + size ≤ f.allocated_size
      → Written s node name f size buffer (
          ok (
            size,
            with_file name node
                (after_write f size)
                (copied s.memory (f.buffer + f.offset) buffer size)
                s,
          ))
  bad_offset :
      f.canonical_size < f.offset
      → Written s node name f size buffer
          (panic "Trying to RAMDISK write to a node an an invalid offset")
  too_long : f.allocated_size < f.offset + size → Written s node name f size buffer (panic "Uh-oh")

-- If offset and size do not wrap and the copy's destination does not start inside its source,
-- `fs_write` to a ramdisk file copies the bytes and moves offset and size on, or panics with one
-- message if the offset is behind the file's end and another if the range does not fit the buffer.
pub fs_write-Written :
    (s : Filesystem Ram) (node size buffer : ℕ) (f : File) (name : List ℕ)
    → IsFile s node name f
    → f.offset + size < 2 ^ 32
    → (f.buffer + f.offset ≤ buffer) ⊎ (buffer + size ≤ f.buffer + f.offset)
    → Written s node name f size buffer (fs_write flat node size buffer s)
unfolding fs_write ramdisk_write
fs_write-Written s node size buffer f name i small apart =
    let there = load_node-ok s node (file_node name f) i.address i.there in
    let sum : add32 f.offset size ≡ f.offset + size = omega arith in
    elim (Bool-cases (ltb f.canonical_size f.offset)) [
      | inl behind ↦ rw (there, there, sum, behind) (bad_offset (ground arith))
      | inr inside ↦ elim (Bool-cases (ltb f.allocated_size (f.offset + size))) [
        | inl long ↦ rw (there, there, sum, inside, long) (too_long (ground arith))
        | inr fits ↦
            rw
              (
                there,
                there,
                sum,
                inside,
                fits,
                memcpy-copied (f.buffer + f.offset) buffer size s.memory apart,
              )
              (written (ground arith) (ground arith))
      ]
    ]

-- `fs_read` of `size` bytes to `buffer`.
pub data Reads (s : Filesystem Ram) (node : ℕ) (name : List ℕ) (f : File) (size buffer : ℕ)
    : Outcome (ℕ × Filesystem Ram) → Type 0 where
  reads :
      f.offset + size ≤ f.canonical_size
      → Reads s node name f size buffer (
          ok (
            size,
            with_file name node
                (after_read f size)
                (copied s.memory buffer (f.buffer + f.offset) size)
                s,
          ))
  past_end :
      f.canonical_size < f.offset + size
      → Reads s node name f size buffer (panic "Trying to RAMDISK read past the end of a file!")

-- If offset and size do not wrap and the copy's destination does not start inside its source,
-- `fs_read` from a ramdisk file copies the bytes and moves the offset on, or panics if the range
-- goes past the file's end.
pub fs_read-Reads :
    (s : Filesystem Ram) (node size buffer : ℕ) (f : File) (name : List ℕ)
    → IsFile s node name f
    → f.offset + size < 2 ^ 32
    → (buffer ≤ f.buffer + f.offset) ⊎ (f.buffer + f.offset + size ≤ buffer)
    → Reads s node name f size buffer (fs_read flat node size buffer s)
unfolding fs_read ramdisk_read
fs_read-Reads s node size buffer f name i small apart =
    let there = load_node-ok s node (file_node name f) i.address i.there in
    let sum : add32 f.offset size ≡ f.offset + size = omega arith in
    elim (Bool-cases (ltb f.canonical_size (f.offset + size))) [
      | inl long ↦ rw (there, there, sum, long) (past_end (ground arith))
      | inr fits ↦
          rw
            (
              there,
              there,
              sum,
              fits,
              memcpy-copied buffer (f.buffer + f.offset) size s.memory apart,
            )
            (reads (ground arith))
    ]
