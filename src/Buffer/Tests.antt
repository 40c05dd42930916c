-- ===== src/Buffer/Tests.antt =====
-- rbus_buffer.c on concrete buffers.
use rbus.Base.{ℕ, ◌≡◌, none, some, List, [], ◌∷◌, ◌++◌, replicate, length, ◌==◌, if◌then◌else◌}
use rbus.Buffer.{Buffer, create, write, read, cells_of}
use rbus.Buffer.Contents.{Holds, create-Holds, write-Holds}
use rbus.Buffer.Reading.{read-write-create, advance}

abbrev some_bytes : List ℕ
some_bytes = 1 ∷ 2 ∷ 3 ∷ []

-- More than one block.
abbrev many : List ℕ
many = replicate 70 7

filled : Holds (write create (some many)) many
filled = write-Holds create many create-Holds

write-Holds_example :
    Holds (write (write create (some many)) (some some_bytes)) (many ++ some_bytes)
write-Holds_example = write-Holds (write create (some many)) some_bytes filled

abbrev written : Buffer
written = write create (some some_bytes)

read-write-create_example : read (write create (some many)) (length many) ≡ (
    if length many == 64
    then none
    else some (cells_of many, advance (write create (some many)) (length many)))
read-write-create_example = read-write-create many
