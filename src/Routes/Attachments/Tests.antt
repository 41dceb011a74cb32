-- ===== src/Routes/Attachments/Tests.antt =====
-- Names of files.
use pm_chat.Base.{◌≡◌, refl, true, false, some}
use pm_chat.Schema.{codes}
use pm_chat.Middleware.Guards.{includes}
use pm_chat.Routes.Attachments.{
  file_filter, filename_of, upload, trim_slashes, after_last_slash, same_codes, ends_with,
  invalid_name, file, download,
}
use pm_chat.Routes.Attachments.Names.{NoSlash, IsUuid, download-IsInside}

naming : Unit {0}
unfolding file_filter upload trim_slashes after_last_slash same_codes download includes
naming = tt

traversal : download (codes "../../etc/passwd") ≡ invalid_name
unfolding naming
traversal = refl

in_a_directory : download (codes "x/y/1a.enc/") ≡ file (codes "1a.enc")
unfolding naming
in_a_directory = refl

only_encrypted : file_filter "image/png" ≡ false
unfolding naming
only_encrypted = refl

uploaded_url :
    upload (some (filename_of (codes "1a-2b")))
    ≡ some (record { url = codes "/api/attachments/1a-2b.enc"; filename = codes "1a-2b.enc" })
unfolding naming
uploaded_url = refl

is_uuid : IsUuid (codes "1a-2b")
is_uuid = (refl, (refl, (refl, (refl, (refl, tt)))))

download-IsInside_example :
    NoSlash (codes "1a.enc")
    × (includes (codes "..") (codes "1a.enc") ≡ false)
    × (ends_with (codes ".enc") (codes "1a.enc") ≡ true)
download-IsInside_example = download-IsInside (codes "x/y/1a.enc/") (codes "1a.enc") in_a_directory
