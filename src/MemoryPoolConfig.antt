-- ===== src/MemoryPoolConfig.antt =====
-- include/JAllocatorImpl/MemoryPoolConfig.hpp: the table of the size classes.
mod Classes
mod Tests
use sallocator.Base.{ℕ, ◌*◌, List, [], ◌∷◌}

-- `MemConfig`: `max_num` blocks of `size` bytes.
pub record MemConfig : Type 0 where
  pub size : ℕ
  pub max_num : ℕ

abbrev pub page_byte_size : ℕ
page_byte_size = 4 * 1024

abbrev pub big_page_byte_size : ℕ
big_page_byte_size = 4 * 1048576

abbrev config : ℕ → ℕ → MemConfig
config size max_num = record { size = size; max_num = max_num }

abbrev pub mem_pool_config : List MemConfig
mem_pool_config =
    config 1 8192
    ∷ config 2 8192
    ∷ config 4 8192
    ∷ config 8 8192
    ∷ config 16 8192
    ∷ config 24 8192
    ∷ config 32 8192
    ∷ config 48 8192
    ∷ config 64 8192
    ∷ config 80 8192
    ∷ config 96 8192
    ∷ config 16 8192
    ∷ config 24 8192
    ∷ config 32 8192
    ∷ config 48 8192
    ∷ config 64 8192
    ∷ config 80 8192
    ∷ config 96 8192
    ∷ config 112 8192
    ∷ config 128 8192
    ∷ config 160 4096
    ∷ config 192 4096
    ∷ config 224 4096
    ∷ config 256 4096
    ∷ config 288 4096
    ∷ config 320 4096
    ∷ config 352 4096
    ∷ config 384 4096
    ∷ config 416 4096
    ∷ config 448 4096
    ∷ config 480 4096
    ∷ config 512 4096
    ∷ config 576 4096
    ∷ config 640 4096
    ∷ config 704 4096
    ∷ config 768 4096
    ∷ config 832 4096
    ∷ config 896 4096
    ∷ config 960 4096
    ∷ config 1024 4096
    ∷ config 1088 4096
    ∷ config 1152 4096
    ∷ config 1216 4096
    ∷ config 1280 4096
    ∷ config 1344 4096
    ∷ config 1408 4096
    ∷ config 1472 4096
    ∷ config 1536 4096
    ∷ config 1600 4096
    ∷ config 1664 4096
    ∷ config 1728 4096
    ∷ config 1792 4096
    ∷ config 1856 4096
    ∷ config 1920 4096
    ∷ config 1984 4096
    ∷ config 2048 4096
    ∷ config 2304 2048
    ∷ config 2560 2048
    ∷ config 2816 2048
    ∷ config 3072 2048
    ∷ config 3328 2048
    ∷ config 3584 2048
    ∷ config 3840 2048
    ∷ config 4096 2048
    ∷ config 4352 2048
    ∷ config 4608 2048
    ∷ config 4864 2048
    ∷ config 5120 2048
    ∷ config 5376 2048
    ∷ config 5632 2048
    ∷ config 5888 2048
    ∷ config 6144 2048
    ∷ config 6400 2048
    ∷ config 6656 2048
    ∷ config 6912 2048
    ∷ config 7168 2048
    ∷ config 7424 2048
    ∷ config 7680 2048
    ∷ config 7936 2048
    ∷ config 8192 2048
    ∷ config 8704 1024
    ∷ config 9216 1024
    ∷ config 9728 1024
    ∷ config 10240 1024
    ∷ config 10752 1024
    ∷ config 11264 1024
    ∷ config 11776 1024
    ∷ config 12288 1024
    ∷ config 12800 1024
    ∷ config 13312 1024
    ∷ config 14080 1024
    ∷ config 14592 1024
    ∷ config 15104 1024
    ∷ config 15616 1024
    ∷ config 16128 1024
    ∷ config 16384 1024
    ∷ config (2 * page_byte_size) 512
    ∷ config (4 * page_byte_size) 512
    ∷ config (8 * page_byte_size) 512
    ∷ config (12 * page_byte_size) 512
    ∷ config (16 * page_byte_size) 512
    ∷ config (20 * page_byte_size) 512
    ∷ config (24 * page_byte_size) 512
    ∷ config (28 * page_byte_size) 512
    ∷ config (32 * page_byte_size) 512
    ∷ config (40 * page_byte_size) 256
    ∷ config (48 * page_byte_size) 256
    ∷ config (56 * page_byte_size) 256
    ∷ config (64 * page_byte_size) 256
    ∷ config (72 * page_byte_size) 256
    ∷ config (80 * page_byte_size) 256
    ∷ config (88 * page_byte_size) 256
    ∷ config (96 * page_byte_size) 256
    ∷ config (128 * page_byte_size) 128
    ∷ config (160 * page_byte_size) 128
    ∷ config (190 * page_byte_size) 128
    ∷ config (212 * page_byte_size) 128
    ∷ config (244 * page_byte_size) 128
    ∷ config (276 * page_byte_size) 128
    ∷ config (1 * big_page_byte_size) 64
    ∷ config (2 * big_page_byte_size) 64
    ∷ config (4 * big_page_byte_size) 64
    ∷ config (8 * big_page_byte_size) 64
    ∷ config (16 * big_page_byte_size) 32
    ∷ config (32 * big_page_byte_size) 32
    ∷ config (64 * big_page_byte_size) 32
    ∷ config (16 * big_page_byte_size) 16
    ∷ config (32 * big_page_byte_size) 16
    ∷ config (64 * big_page_byte_size) 8
    ∷ []
