-- ===== src/Initrd/Tests.antt =====
-- An image with one file, written and read.
use torch_os.Base.{◌+◌, arith, length}
use torch_os.Filesystem.Sample.{image}
use torch_os.Initrd.{make_initrd}
use torch_os.Initrd.Layout.{IsImage, make_initrd-IsImage}
use torch_os.Initrd.Sample.{files, image-Bytes}

make_initrd-IsImage_example : IsImage image 100 (100 + length (make_initrd files)) files
make_initrd-IsImage_example =
    make_initrd-IsImage image 100 files
      (record { nonzero = (omega arith, tt); short = omega arith; small = omega arith }, tt)
      image-Bytes
