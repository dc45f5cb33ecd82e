-- ===== src/Jpeg/Turbo/Laws.antt =====
-- What jpeg/main.cpp relies on of TurboJPEG.
use c_practice.Base.{ℕ, ◌*◌, ◌≡◌, some, length}
use c_practice.Base.Text.{Text}
use c_practice.Jpeg.Turbo.{Header, TurboJpeg}

-- A grey pixel is a byte. A decompression in the size of the header fills the image. An image that
-- was compressed is one whose header tells its size; decompressed to the same pixel format, it gives
-- the pixels but for what the compression loses (`degrade`, of the size, format, sampling, quality
-- and flags).
pub record TurboLaws (tj : TurboJpeg) : Type 0 where
  pub degrade : (width height pixel_format subsamp quality flags flags' : ℕ) → Text → Text
  pub gray : tj.tj_pixel_size tj.tjpf_gray ≡ 1
  pub filled :
      (src pixels : Text) (h : Header) (pixel_format flags : ℕ)
      → tj.decompress_header src ≡ some h
      → tj.decompress src h.width h.height pixel_format flags ≡ some pixels
      → length pixels ≡ h.height * (h.width * tj.tj_pixel_size pixel_format)
  pub compressed :
      (image jpeg : Text) (width height pixel_format subsamp quality flags : ℕ)
      → length image ≡ height * (width * tj.tj_pixel_size pixel_format)
      → tj.compress image width height pixel_format subsamp quality flags ≡ some jpeg
      → (h : Header) × (tj.decompress_header jpeg ≡ some h)
        × (h.width ≡ width)
        × (h.height ≡ height)
        × ((flags' : ℕ)
            → tj.decompress jpeg width height pixel_format flags'
              ≡ some (degrade width height pixel_format subsamp quality flags flags' image))
