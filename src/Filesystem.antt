-- ===== src/Filesystem.antt =====
-- kernel/filesystem.c: the operations on nodes, and those of the ramdisk. `S` is the memory that
-- holds their contents; the nodes and the entries of directories are records by address.
mod Tests
pub mod Store
pub mod Files
pub mod RoundTrip
pub mod Nodes
pub mod Directories
pub mod Ramdisk
pub mod SelfTest
pub mod Sample
use torch_os.Base.{
  ℕ, zero, suc, ◌+◌, ◌^◌, List, [], ◌∷◌, Option, none, some, ◌==◌, ltb, if◌then◌else◌, max, add32,
  Outcome, ok, panic, out_of_fuel, ◌>>=◌, ◌>>◌, panic_if, String,
}
use torch_os.Hardware.Bus.{Bus}
use torch_os.Strings.{memcpy}
use Store.{
  null, File, Directory, Content, fs_file, fs_directory, Driver, ramdisk, Node, Dirent, Filesystem,
  load_node, load_dirent, put_node, put_dirent,
}

-- What a node that is not a file gives: a panic with the operation's message.
abbrev pub file_of : {A : Type 0} → Content → (message : String) → (File → Outcome A) → Outcome A
file_of (fs_file f) message go = go f
file_of (fs_directory d) message go = panic message

-- `node->file.offset`, the first word of the union.
abbrev pub first_word : Content → ℕ
first_word (fs_file f) = f.offset
first_word (fs_directory d) = d.head

module _ {S : Type 0} (bus : Bus S) where
  unfoldable pub ramdisk_read :
      (node offset size buffer : ℕ) → Filesystem S → Outcome (ℕ × Filesystem S)
  ramdisk_read node offset size buffer s = do
    n ← load_node node s
    file_of n.content "Trying to RAMDISK read from a node that is not a file!" (λ f. do
      panic_if (ltb f.canonical_size (add32 offset size))
          "Trying to RAMDISK read past the end of a file!"
      (_, memory) ← memcpy bus buffer (f.buffer + offset) size s.memory
      let read = record f { offset = add32 offset size }
      ok (size, put_node node (record n { content = fs_file read }) (record s { memory = memory })))

  unfoldable pub ramdisk_write :
      (node offset size buffer : ℕ) → Filesystem S → Outcome (ℕ × Filesystem S)
  ramdisk_write node offset size buffer s = do
    n ← load_node node s
    file_of n.content "Trying to RAMDISK write to a node that is not a file!" (λ f. do
      panic_if (ltb f.canonical_size offset)
          "Trying to RAMDISK write to a node an an invalid offset"
      panic_if (ltb f.allocated_size (add32 offset size)) "Uh-oh"
      (_, memory) ← memcpy bus (f.buffer + offset) buffer size s.memory
      let written = record f {
        canonical_size = max f.canonical_size (add32 offset size);
        offset = add32 offset size;
      }
      ok (
        size,
        put_node node (record n { content = fs_file written }) (record s { memory = memory }),
      ))

  -- An unsigned position is never below 0.
  unfoldable pub ramdisk_seek : (node position : ℕ) → Filesystem S → Outcome (ℕ × Filesystem S)
  ramdisk_seek node position s = do
    n ← load_node node s
    file_of n.content "Trying to RAMDISK seek to a node that is not a file!" (λ f. do
      panic_if (ltb f.allocated_size position) "Position is invalid during RAMDISK seek!"
      ok (
        position,
        put_node node (record n { content = fs_file (record f { offset = position }) }) s,
      ))

  run_read :
      Option Driver → (node offset size buffer : ℕ) → Filesystem S → Outcome (ℕ × Filesystem S)
  run_read none node offset size buffer s = panic "fs_read function pointer not set!"
  run_read (some ramdisk) node offset size buffer s = ramdisk_read node offset size buffer s

  unfoldable pub fs_read : (node size buffer : ℕ) → Filesystem S → Outcome (ℕ × Filesystem S)
  unfolding run_read
  fs_read node size buffer s = do
    n ← load_node node s
    run_read n.read node (first_word n.content) size buffer s

  run_write :
      Option Driver → (node offset size buffer : ℕ) → Filesystem S → Outcome (ℕ × Filesystem S)
  run_write none node offset size buffer s = panic "fs_write function pointer not set!"
  run_write (some ramdisk) node offset size buffer s = ramdisk_write node offset size buffer s

  unfoldable pub fs_write : (node size buffer : ℕ) → Filesystem S → Outcome (ℕ × Filesystem S)
  unfolding run_write
  fs_write node size buffer s = do
    n ← load_node node s
    run_write n.write node (first_word n.content) size buffer s

  run_seek : Option Driver → (node position : ℕ) → Filesystem S → Outcome (ℕ × Filesystem S)
  run_seek none node position s = panic "fs_seek function pointer not set!"
  run_seek (some ramdisk) node position s = ramdisk_seek node position s

  unfoldable pub fs_seek : (node position : ℕ) → Filesystem S → Outcome (ℕ × Filesystem S)
  unfolding run_seek
  fs_seek node position s = do n ← load_node node s; run_seek n.seek node position s
