-- ===== src/Filesystem/SelfTest.antt =====
-- The test at the end of `init_filesystem` passes.
use torch_os.Base.{ℕ, ◌+◌, ◌≤◌, ◌<◌, ◌≡◌, ◌≢◌, ◌⊎◌, refl, sym, ap, ◌∙◌, arith, List, Outcome, ok}
use torch_os.Base.Int.{ℤ, pos}
use torch_os.Base.Text.{codes}
use torch_os.Hardware.Ram.{Ram, load8}
use torch_os.Hardware.Bus.{flat}
use torch_os.Strings.{strncmp}
use torch_os.Strings.Fill.{filled, copied, memset-filled}
use torch_os.Strings.Compare.{Compared, same, differ, strncmp-Compared}
use torch_os.Memory.Allocator.{Allocator}
use torch_os.Filesystem.Store.{null, File, Filesystem, put_node}
use torch_os.Filesystem.Nodes.{node_size, default_file_size, file_type, fs_construct_node}
use torch_os.Filesystem.Files.{IsFile, file_node, after_write, load_node-ok}
use torch_os.Filesystem.RoundTrip.{SameText, write_and_read-memory}
use torch_os.Filesystem.Ramdisk.{write_text, write_and_read_back, self_test}

strncmp-same :
    (s1 s2 n : ℕ) (m : Ram)
    → ((i : ℕ) → i < n → load8 m (s1 + i) ≡ load8 m (s2 + i))
    → strncmp flat s1 s2 n m ≡ ok (pos 0)
strncmp-same s1 s2 n m agree = go (strncmp-Compared s1 s2 n m)
  where
    go : {r : Outcome ℤ} → Compared m s1 s2 n r → r ≡ ok (pos 0)
    go (same agree') = refl
    go (differ i below agree' ne) = absurd (ne (agree i below))

-- A new, empty file with its buffer.
abbrev pub empty_file : (buffer : ℕ) → File
empty_file buffer = record { offset = 0; buffer = buffer; canonical_size = 0; allocated_size = 256 }

-- `fs_construct_node` of a file, when `kalloc` gives the node and then the buffer.
pub construct-IsFile :
    (allocator : Allocator Ram) (name : List ℕ) (node buffer : ℕ) (ma mb : Ram) (s : Filesystem Ram)
    → allocator.kalloc node_size s.memory ≡ ok (node, ma)
    → allocator.kalloc default_file_size ma ≡ ok (buffer, mb)
    → fs_construct_node allocator name file_type s
      ≡ ok (node, put_node node (file_node name (empty_file buffer)) (record s { memory = mb }))
unfolding fs_construct_node
construct-IsFile allocator name node buffer ma mb s first second = rw (first, second) refl

put_node-IsFile :
    (s : Filesystem Ram) (node : ℕ) (name : List ℕ) (f : File)
    → node ≢ null
    → IsFile (put_node node (file_node name f) s) node name f
unfolding put_node
put_node-IsFile s node name f ne = record { address = ne; there = ground arith }

-- The bytes `test` of an array, in memory after the test's two copies.
module _ (m : Ram) (buffer source target : ℕ) (low : (buffer + 5 ≤ source) ⊎ (source + 5 ≤ buffer))
    (apart : (target + 5 ≤ source) ⊎ (source + 5 ≤ target)) where
  still_there :
      (i : ℕ)
      → i < 5
      → load8 (copied (copied m (buffer + 0) source 5) target (buffer + 0) 5) (source + i)
        ≡ load8 m (source + i)
  unfolding load8
  still_there i h = ground arith

-- The test, with what it leaves alone.
pub self_test-memory :
    (allocator : Allocator Ram) (s : Filesystem Ram) (test_data test_buffer node buffer : ℕ)
    (m ma mb : Ram)
    → write_text flat test_data (codes "Hello") s.memory ≡ ok m
    → allocator.kalloc node_size (filled m test_buffer 0 5) ≡ ok (node, ma)
    → allocator.kalloc default_file_size ma ≡ ok (buffer, mb)
    → node ≢ null
    → (buffer + 5 ≤ test_data) ⊎ (test_data + 5 ≤ buffer)
    → (test_buffer + 5 ≤ test_data) ⊎ (test_data + 5 ≤ test_buffer)
    → (test_buffer + 5 ≤ buffer) ⊎ (buffer + 5 ≤ test_buffer)
    → (s' : Filesystem Ram) × (self_test flat allocator test_data test_buffer s ≡ ok s')
      × SameText mb test_data s'.memory test_buffer 5
      × (s'.memory ≡ copied (copied mb (buffer + 0) test_data 5) test_buffer (buffer + 0) 5)
      × ((q : ℕ) → q ≢ node → s'.nodes q ≡ s.nodes q)
      × (s'.root ≡ s.root)
      × (s'.dirents ≡ s.dirents)
unfolding self_test write_and_read_back put_node
self_test-memory allocator s test_data test_buffer node buffer m ma mb written first second ne low
      apart apart' =
    let name = codes "Test File" in
    let f = empty_file buffer in
    let s0 : Filesystem Ram = record s { memory = filled m test_buffer 0 5 } in
    let s1 = put_node node (file_node name f) (record s0 { memory = mb }) in
    let made = construct-IsFile allocator name node buffer ma mb s0 first second in
    let there : IsFile s1 node name f =
      put_node-IsFile (record s0 { memory = mb }) node name f ne in
    let (s5, returns, file5, text, memory5, nodes5, root5, dirents5) =
      write_and_read-memory s1 node 0 5 test_data test_buffer f name there (omega arith)
        (omega arith) (omega arith) (omega arith) (omega arith) (omega arith) in
    let agree = strncmp-same test_data test_buffer 5 s5.memory (λ i h.
      ap (λ r. load8 r (test_data + i)) memory5
      ∙ still_there mb buffer test_data test_buffer low apart i h
      ∙ sym (text i h)) in
    let loaded =
      load_node-ok s5 node (file_node name (after_write f 5)) file5.address file5.there in
    (
      s5,
      rw (written, memset-filled test_buffer 0 5 m, made, returns, agree, loaded) refl,
      text,
      memory5,
      λ q apart. nodes5 q apart ∙ ground arith,
      root5,
      dirents5,
    )

-- If `kalloc` gives a node that is not null and a buffer, and the two arrays and the buffer are
-- apart, the test of `init_filesystem` on a new file ends without a panic, and the second array
-- then holds the five bytes that the first had when the buffer was allocated.
pub self_test-passes :
    (allocator : Allocator Ram) (s : Filesystem Ram) (test_data test_buffer node buffer : ℕ)
    (m ma mb : Ram)
    → write_text flat test_data (codes "Hello") s.memory ≡ ok m
    → allocator.kalloc node_size (filled m test_buffer 0 5) ≡ ok (node, ma)
    → allocator.kalloc default_file_size ma ≡ ok (buffer, mb)
    → node ≢ null
    → (buffer + 5 ≤ test_data) ⊎ (test_data + 5 ≤ buffer)
    → (test_buffer + 5 ≤ test_data) ⊎ (test_data + 5 ≤ test_buffer)
    → (test_buffer + 5 ≤ buffer) ⊎ (buffer + 5 ≤ test_buffer)
    → (s' : Filesystem Ram) × (self_test flat allocator test_data test_buffer s ≡ ok s')
      × SameText mb test_data s'.memory test_buffer 5
self_test-passes allocator s test_data test_buffer node buffer m ma mb written first second ne low
      apart apart' =
    let (s', returns, text, _, _, _, _) =
      self_test-memory allocator s test_data test_buffer node buffer m ma mb written first second ne
        low apart apart' in
    (s', returns, text)
