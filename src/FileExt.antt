-- ===== src/FileExt.antt =====
-- example/iperf-bats/bats_file.h: the table of file extensions.
pub mod Laws
use Prim.Native.String.{String}
use text.Mathlib.Text.{◌==◌ as str_eq}
use bats_protocol_api.Prelude.{ℕ, Bool, List, [], ◌∷◌, ◌==◌, if◌then◌else◌}

-- The names of the enum's members; `o`, `a`, `c` and `h` are object, archive and C files.
pub data FileExtension : Type 0 where
  txt md log json yaml yml xml ini conf : FileExtension
  env sh py js ts c h cpp hpp : FileExtension
  java go rs o so dll dylib a lib : FileExtension
  exe bin pt pth safetensors onnx tflite pb h5 : FileExtension
  ggml gguf tar tar_gz zip sevenz gz bz2 xz : FileExtension
  iso html css jpg png gif svg webp mp3 : FileExtension
  wav flac mp4 mkv pdf docx xlsx pptx pem : FileExtension
  crt key md5 sha1 sha256 unknown count : FileExtension

-- The value of a member: `static_cast<uint16_t>(fe)`.
unfoldable pub index : FileExtension → ℕ
index txt = 0
index md = 1
index log = 2
index json = 3
index yaml = 4
index yml = 5
index xml = 6
index ini = 7
index conf = 8
index env = 9
index sh = 10
index py = 11
index js = 12
index ts = 13
index c = 14
index h = 15
index cpp = 16
index hpp = 17
index java = 18
index go = 19
index rs = 20
index o = 21
index so = 22
index dll = 23
index dylib = 24
index a = 25
index lib = 26
index exe = 27
index bin = 28
index pt = 29
index pth = 30
index safetensors = 31
index onnx = 32
index tflite = 33
index pb = 34
index h5 = 35
index ggml = 36
index gguf = 37
index tar = 38
index tar_gz = 39
index zip = 40
index sevenz = 41
index gz = 42
index bz2 = 43
index xz = 44
index iso = 45
index html = 46
index css = 47
index jpg = 48
index png = 49
index gif = 50
index svg = 51
index webp = 52
index mp3 = 53
index wav = 54
index flac = 55
index mp4 = 56
index mkv = 57
index pdf = 58
index docx = 59
index xlsx = 60
index pptx = 61
index pem = 62
index crt = 63
index key = 64
index md5 = 65
index sha1 = 66
index sha256 = 67
index unknown = 68
index count = 69

-- The contents of the hash table, in the order in which the source writes them.
pub record Entry : Type 0 where
  pub extension : FileExtension
  pub suffix : String
  pub description : String

abbrev entry : FileExtension → String → String → Entry
entry e s d = record { extension = e; suffix = s; description = d }

unfoldable pub file_ext_table : List Entry
file_ext_table =
    entry txt ".txt" "plain text file"
    ∷ entry md ".md" "Markdown formatted text (documentation, README)"
    ∷ entry log ".log" "log output file"
    ∷ entry json ".json" "JSON data/configuration"
    ∷ entry yaml ".yaml" "YAML data/configuration"
    ∷ entry yml ".yml" "YAML data/configuration"
    ∷ entry xml ".xml" "XML data/configuration"
    ∷ entry ini ".ini" "simple key=value config file"
    ∷ entry conf ".conf" "configuration file"
    ∷ entry env ".env" "environment variable definitions"
    ∷ entry sh ".sh" "shell script"
    ∷ entry py ".py" "Python source file"
    ∷ entry js ".js" "JavaScript source file"
    ∷ entry ts ".ts" "TypeScript source file"
    ∷ entry c ".c" "C source file"
    ∷ entry h ".h" "C header file"
    ∷ entry cpp ".cpp" "C++ source file"
    ∷ entry hpp ".hpp" "C++ header file"
    ∷ entry java ".java" "Java source file"
    ∷ entry go ".go" "Go source file"
    ∷ entry rs ".rs" "Rust source file"
    ∷ entry o ".o" "object file"
    ∷ entry so ".so" "shared library (Linux)"
    ∷ entry dll ".dll" "shared library (Windows)"
    ∷ entry dylib ".dylib" "shared library (macOS)"
    ∷ entry a ".a" "static library archive"
    ∷ entry lib ".lib" "static library (Windows)"
    ∷ entry exe ".exe" "executable binary (Windows)"
    ∷ entry bin ".bin" "generic binary file / model weights (HuggingFace pytorch_model.bin)"
    ∷ entry pt ".pt" "PyTorch model checkpoint"
    ∷ entry pth ".pth" "PyTorch model checkpoint"
    ∷ entry safetensors ".safetensors" "Safe tensor model format (preferred for sharing)"
    ∷ entry onnx ".onnx" "ONNX model for interoperable runtimes"
    ∷ entry tflite ".tflite" "TensorFlow Lite model"
    ∷ entry pb ".pb" "TensorFlow protobuf model / checkpoint"
    ∷ entry h5 ".h5" "Keras HDF5 model"
    ∷ entry ggml ".ggml" "GGML model format (llama.cpp)"
    ∷ entry gguf ".gguf" "GGUF model format (llama.cpp ecosystem)"
    ∷ entry tar ".tar" "tar archive"
    ∷ entry tar_gz ".tar.gz" ".tar.gz compressed archive"
    ∷ entry zip ".zip" "zip archive"
    ∷ entry sevenz ".7z" "7-zip archive"
    ∷ entry gz ".gz" "gzip compressed file"
    ∷ entry bz2 ".bz2" "bzip2 compressed file"
    ∷ entry xz ".xz" "xz compressed file"
    ∷ entry iso ".iso" "optical image / installer image"
    ∷ entry html ".html" "web page"
    ∷ entry css ".css" "Cascading Style Sheets"
    ∷ entry jpg ".jpg" "JPEG image"
    ∷ entry png ".png" "PNG image"
    ∷ entry gif ".gif" "GIF image"
    ∷ entry svg ".svg" "SVG vector image"
    ∷ entry webp ".webp" "WEBP image"
    ∷ entry mp3 ".mp3" "MP3 audio"
    ∷ entry wav ".wav" "WAV audio"
    ∷ entry flac ".flac" "FLAC audio"
    ∷ entry mp4 ".mp4" "MP4 video"
    ∷ entry mkv ".mkv" "Matroska video"
    ∷ entry pdf ".pdf" "Portable Document Format"
    ∷ entry docx ".docx" "Microsoft Word document"
    ∷ entry xlsx ".xlsx" "Microsoft Excel spreadsheet"
    ∷ entry pptx ".pptx" "Microsoft PowerPoint presentation"
    ∷ entry pem ".pem" "PEM formatted certificate/key"
    ∷ entry crt ".crt" "certificate file"
    ∷ entry key ".key" "private key file"
    ∷ entry md5 ".md5" "MD5 checksum file"
    ∷ entry sha1 ".sha1" "SHA-1 checksum file"
    ∷ entry sha256 ".sha256" "SHA-256 checksum file"
    ∷ entry unknown "" ""
    ∷ []

-- `FileExtTable.find(fe)`, whatever the order `table` in which the buckets are kept; an entry that
-- is not there reads as two empty strings.
find : FileExtension → List Entry → Entry
find fe [] = entry fe "" ""
find fe (e ∷ table) = let rest = find fe table in if index e.extension == index fe then e else rest

unfoldable pub file_ext_to_string : List Entry → FileExtension → String
unfolding find
file_ext_to_string table fe = (find fe table).suffix

unfoldable pub file_ext_to_description : List Entry → FileExtension → String
unfolding find
file_ext_to_description table fe = (find fe table).description

-- The first entry with this suffix, in the table's order.
unfoldable pub file_ext_from_string : List Entry → String → FileExtension
file_ext_from_string [] ext = unknown
file_ext_from_string (e ∷ table) ext =
    let rest = file_ext_from_string table ext in if str_eq e.suffix ext then e.extension else rest
