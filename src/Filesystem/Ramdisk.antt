-- ===== src/Filesystem/Ramdisk.antt =====
-- kernel/filesystem.c: reading the ramdisk's image, and the start of the file system.
use torch_os.Base.{
  ℕ, zero, suc, ◌+◌, ◌*◌, ◌^◌, List, [], ◌∷◌, ◌==◌, not, ltb, if◌then◌else◌, add32, Outcome, ok,
  out_of_fuel, ◌>>=◌, ◌>>◌, panic_if, Bool, false,
}
use torch_os.Base.Int.{ℤ, pos, negsuc}
use torch_os.Base.Text.{codes}
use torch_os.Hardware.Bus.{Bus}
use torch_os.Strings.{memset, strncmp}
use torch_os.Memory.Allocator.{Allocator}
use torch_os.Filesystem.{fs_read, fs_write, fs_seek, first_word}
use torch_os.Filesystem.Store.{
  null, Content, fs_file, fs_directory, Filesystem, load_node, load_dirent,
}
use torch_os.Filesystem.Nodes.{
  addresses, file_type, directory_type, fs_construct_node, fs_add_dirent,
}

-- `sizeof(struct block)`: a word for the size and 128 characters for the name
abbrev pub block_size : ℕ
block_size = 4 + 128

-- `node->file.canonical_size`, the third word of the union.
abbrev pub third_word : Content → ℕ
third_word (fs_file f) = f.canonical_size
third_word (fs_directory d) = d.parent

abbrev pub is_zero : ℤ → Bool
is_zero (pos n) = n == 0
is_zero (negsuc n) = false

module _ {S : Type 0} (bus : Bus S) where
  -- A word in memory, the low byte first.
  unfoldable pub word_at : ℕ → S → Outcome ℕ
  word_at a s = do
    b0 ← bus.read a s
    b1 ← bus.read (a + 1) s
    b2 ← bus.read (a + 2) s
    b3 ← bus.read (a + 3) s
    ok (b0 + 2 ^ 8 * b1 + 2 ^ 16 * b2 + 2 ^ 24 * b3)

  -- The characters of a C string.
  unfoldable pub text_at : (fuel p : ℕ) → S → Outcome (List ℕ)
  text_at zero p s = out_of_fuel
  text_at (suc fuel) p s = do
    c ← bus.read p s
    let rest = λ (q : ℕ). text_at fuel q s
    if c == 0 then ok [] else (do cs ← rest (p + 1); ok (c ∷ cs))

  -- A test's four calls on a file.
  unfoldable pub write_and_read_back :
      (node size source target : ℕ) → Filesystem S → Outcome (ℕ × Filesystem S)
  write_and_read_back node size source target s = do
    (_, s1) ← fs_seek bus node 0 s
    (_, s2) ← fs_write bus node size source s1
    (_, s3) ← fs_seek bus node 0 s2
    fs_read bus node size target s3

  -- Characters written one after the other.
  unfoldable pub write_text : (p : ℕ) → List ℕ → S → Outcome S
  write_text p [] s = ok s
  write_text p (c ∷ cs) s = do s1 ← bus.write p c s; write_text (p + 1) cs s1

module _ {S : Type 0} (bus : Bus S) (allocator : Allocator S) where
  -- One round of `read_ramdisk`, on the block at `current`; it gives the address of the next. The
  -- name is read before the node is allocated.
  unfoldable pub add_file : (current : ℕ) → Filesystem S → Outcome (ℕ × Filesystem S)
  add_file current s = do
    name ← text_at bus addresses (current + 4) s.memory
    (temp, s1) ← fs_construct_node allocator name file_type s
    size ← word_at bus current s1.memory
    (_, s2) ← fs_write bus temp size (current + block_size) s1
    s3 ← fs_add_dirent allocator s2.root temp s2
    size_again ← word_at bus current s3.memory
    ok (add32 current (add32 block_size size_again), s3)

  unfoldable pub read_ramdisk :
      (fuel current initrd_end : ℕ) → Filesystem S → Outcome (Filesystem S)
  unfolding add_file
  read_ramdisk zero current initrd_end s = out_of_fuel
  read_ramdisk (suc fuel) current initrd_end s =
      let rest = λ (next : ℕ) (s1 : Filesystem S). read_ramdisk fuel next initrd_end s1 in
      if ltb current initrd_end then (do (next, s1) ← add_file current s; rest next s1) else ok s

  -- One entry of the list that `init_filesystem` reads into `test`; it gives the next.
  unfoldable pub show_entry : (test current : ℕ) → Filesystem S → Outcome (ℕ × Filesystem S)
  show_entry test current s = do
    d ← load_dirent current s
    (_, s1) ← fs_seek bus d.node 0 s
    n ← load_node d.node s1
    (_, s2) ← fs_read bus d.node (third_word n.content) test s1
    again ← load_dirent current s2
    ok (again.next, s2)

  unfoldable pub show_entries : (fuel test current : ℕ) → Filesystem S → Outcome (Filesystem S)
  unfolding show_entry
  show_entries zero test current s = out_of_fuel
  show_entries (suc fuel) test current s =
      let rest = λ (next : ℕ) (s1 : Filesystem S). show_entries fuel test next s1 in
      if current == null then ok s else (do (next, s1) ← show_entry test current s; rest next s1)

  -- `Testing FS Write and Read Back`, with the two arrays of five characters.
  unfoldable pub self_test : (test_data test_buffer : ℕ) → Filesystem S → Outcome (Filesystem S)
  unfolding write_and_read_back
  self_test test_data test_buffer s = do
    m ← write_text bus test_data (codes "Hello") s.memory
    (_, m1) ← memset bus test_buffer 0 5 m
    (test_file, s1) ←
        fs_construct_node allocator (codes "Test File") file_type (record s { memory = m1 })
    (_, s5) ← write_and_read_back bus test_file 5 test_data test_buffer s1
    difference ← strncmp bus test_data test_buffer 5 s5.memory
    panic_if (not (is_zero difference)) "FS Write and Read Back Test Failed\n"
    n ← load_node test_file s5
    panic_if (not (first_word n.content == 5)) "test_file does not have the correct offset!"
    ok s5

  -- `test`, `test_data` and `test_buffer` are the addresses of its arrays.
  unfoldable pub init_filesystem :
      (test test_data test_buffer initrd_start initrd_end : ℕ)
      → Filesystem S
      → Outcome (Filesystem S)
  unfolding read_ramdisk show_entries self_test
  init_filesystem test test_data test_buffer initrd_start initrd_end s = do
    (root, s1) ← fs_construct_node allocator (codes "root") directory_type s
    s2 ← read_ramdisk addresses initrd_start initrd_end (record s1 { root = root })
    n ← load_node s2.root s2
    s3 ← show_entries addresses test (first_word n.content) s2
    self_test test_data test_buffer s3
