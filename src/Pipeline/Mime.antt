-- ===== src/Pipeline/Mime.antt =====
-- `mime_from_extension` of crates/object-pipeline/src/pipeline.rs.
use hypr_drive.Prelude.{Option, none, some, String, List, [], ◌∷◌}
use hypr_drive.Prelude.HashMap.{get}
use hypr_drive.Prelude.Text.{String_discrete}

abbrev mime_types : List (String × String)
mime_types =
    ("pdf", "application/pdf")
    ∷ ("doc", "application/msword")
    ∷ ("docx", "application/vnd.openxmlformats-officedocument.wordprocessingml.document")
    ∷ ("xls", "application/vnd.ms-excel")
    ∷ ("xlsx", "application/vnd.openxmlformats-officedocument.spreadsheetml.sheet")
    ∷ ("ppt", "application/vnd.ms-powerpoint")
    ∷ ("pptx", "application/vnd.openxmlformats-officedocument.presentationml.presentation")
    ∷ ("odt", "application/vnd.oasis.opendocument.text")
    ∷ ("ods", "application/vnd.oasis.opendocument.spreadsheet")
    ∷ ("csv", "text/csv")
    ∷ ("txt", "text/plain")
    ∷ ("md", "text/markdown")
    ∷ ("markdown", "text/markdown")
    ∷ ("html", "text/html")
    ∷ ("htm", "text/html")
    ∷ ("css", "text/css")
    ∷ ("xml", "application/xml")
    ∷ ("json", "application/json")
    ∷ ("yaml", "application/yaml")
    ∷ ("yml", "application/yaml")
    ∷ ("toml", "application/toml")
    ∷ ("jpg", "image/jpeg")
    ∷ ("jpeg", "image/jpeg")
    ∷ ("png", "image/png")
    ∷ ("gif", "image/gif")
    ∷ ("webp", "image/webp")
    ∷ ("svg", "image/svg+xml")
    ∷ ("bmp", "image/bmp")
    ∷ ("ico", "image/x-icon")
    ∷ ("tiff", "image/tiff")
    ∷ ("tif", "image/tiff")
    ∷ ("avif", "image/avif")
    ∷ ("heic", "image/heic")
    ∷ ("heif", "image/heic")
    ∷ ("mp4", "video/mp4")
    ∷ ("mkv", "video/x-matroska")
    ∷ ("avi", "video/x-msvideo")
    ∷ ("mov", "video/quicktime")
    ∷ ("wmv", "video/x-ms-wmv")
    ∷ ("webm", "video/webm")
    ∷ ("flv", "video/x-flv")
    ∷ ("mp3", "audio/mpeg")
    ∷ ("wav", "audio/wav")
    ∷ ("ogg", "audio/ogg")
    ∷ ("flac", "audio/flac")
    ∷ ("aac", "audio/aac")
    ∷ ("m4a", "audio/mp4")
    ∷ ("wma", "audio/x-ms-wma")
    ∷ ("zip", "application/zip")
    ∷ ("tar", "application/x-tar")
    ∷ ("gz", "application/gzip")
    ∷ ("gzip", "application/gzip")
    ∷ ("bz2", "application/x-bzip2")
    ∷ ("xz", "application/x-xz")
    ∷ ("7z", "application/x-7z-compressed")
    ∷ ("rar", "application/vnd.rar")
    ∷ ("zst", "application/zstd")
    ∷ ("zstd", "application/zstd")
    ∷ ("rs", "text/x-rust")
    ∷ ("py", "text/x-python")
    ∷ ("js", "text/javascript")
    ∷ ("ts", "text/typescript")
    ∷ ("go", "text/x-go")
    ∷ ("java", "text/x-java")
    ∷ ("c", "text/x-c")
    ∷ ("cpp", "text/x-c++")
    ∷ ("cc", "text/x-c++")
    ∷ ("cxx", "text/x-c++")
    ∷ ("h", "text/x-c-header")
    ∷ ("hpp", "text/x-c-header")
    ∷ ("rb", "text/x-ruby")
    ∷ ("sh", "text/x-shellscript")
    ∷ ("bash", "text/x-shellscript")
    ∷ ("sql", "application/sql")
    ∷ ("exe", "application/x-msdownload")
    ∷ ("dll", "application/x-msdownload")
    ∷ ("so", "application/x-sharedlib")
    ∷ ("dmg", "application/x-apple-diskimage")
    ∷ ("msi", "application/x-msi")
    ∷ ("deb", "application/vnd.debian.binary-package")
    ∷ ("rpm", "application/x-rpm")
    ∷ ("appimage", "application/x-executable")
    ∷ ("ttf", "font/ttf")
    ∷ ("otf", "font/otf")
    ∷ ("woff", "font/woff")
    ∷ ("woff2", "font/woff2")
    ∷ []

-- By the extension in lower case.
unfoldable pub mime_of : String → Option String
unfolding get
mime_of extension = get String_discrete extension mime_types

abbrev pub mime_from_extension : (String → String) → Option String → Option String
mime_from_extension to_lowercase none = none
mime_from_extension to_lowercase (some extension) = mime_of (to_lowercase extension)
