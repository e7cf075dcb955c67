-- ===== src/Initrd.antt =====
-- initfs/make_initrd.py: the ramdisk's image, as the build writes it. The directory's listing is the
-- list of its files.
mod Tests
pub mod Layout
pub mod Sample
use torch_os.Base.{ℕ, zero, suc, ◌-◌, ◌/◌, ◌%◌, ◌^◌, List, [], ◌∷◌, ◌++◌, length, replicate}

-- A file of `initfs/root`, its name in UTF-8.
pub record InitFile : Type 0 where
  pub name : List ℕ
  pub contents : List ℕ

-- `struct.pack('I', size)`
unfoldable pub pack_size : ℕ → List ℕ
pack_size n = (n % 2 ^ 8) ∷ (n / 2 ^ 8 % 2 ^ 8) ∷ (n / 2 ^ 16 % 2 ^ 8) ∷ (n / 2 ^ 24 % 2 ^ 8) ∷ []

abbrev pub take : List ℕ → ℕ → List ℕ
take xs zero = []
take [] (suc n) = []
take (x ∷ xs) (suc n) = x ∷ take xs n

-- `struct.pack('128s', name)` cuts a name or fills it up with zeros.
unfoldable pub pack_name : List ℕ → List ℕ
pack_name name = take name 128 ++ replicate (128 - length name) 0

-- A round of the loop.
unfoldable pub pack_file : InitFile → List ℕ
unfolding pack_size pack_name
pack_file f = pack_size (length f.contents) ++ (pack_name f.name ++ f.contents)

unfoldable pub make_initrd : List InitFile → List ℕ
unfolding pack_file
make_initrd [] = []
make_initrd (f ∷ fs) = pack_file f ++ make_initrd fs
