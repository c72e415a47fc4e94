-- ===== src/Net/Address.antt =====
-- src/tactmon/net/Server.cpp: `GenerateAdress`, the links that the server answers to. How
-- `fmt::format` writes a number is a parameter.
use tactmon.Prelude.{ℕ, ◌++◌, Bytes, codes}
use tactmon.Tact.Data.FileLocation.{ArchiveFileLocation}
use tactmon.Utility.Hex.{hex}

-- `"{}/{}/{}/{}/{}/{}/{}"`.
unfoldable pub format_address : (ℕ → Bytes) → Bytes → Bytes → Bytes → ℕ → ℕ → ℕ → Bytes → Bytes
format_address decimal root product name offset len size file =
    root
    ++ (codes "/"
        ++ (product
            ++ (codes "/"
                ++ (name
                    ++ (codes "/"
                        ++ (decimal offset
                            ++ (codes "/"
                                ++ (decimal len
                                    ++ (codes "/" ++ (decimal size ++ (codes "/" ++ file)))))))))))

-- Of a file in an archive.
unfoldable pub archive_address :
    (ℕ → Bytes) → Bytes → Bytes → ArchiveFileLocation → Bytes → ℕ → Bytes
unfolding format_address
archive_address decimal root product location file size =
    format_address decimal root product location.name location.offset location.file_size size file

-- Of a file that is named by its key: the archive is the text of the key, from 0 on, of length 0.
unfoldable pub key_address : (ℕ → Bytes) → Bytes → Bytes → Bytes → Bytes → ℕ → Bytes
unfolding format_address hex
key_address decimal root product location file size =
    format_address decimal root product (hex location) 0 0 size file
