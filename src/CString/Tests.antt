-- ===== src/CString/Tests.antt =====
-- Runs of the string functions.
use roman_firmware.Prelude.{◌≡◌, refl, some, none, codes}
use roman_firmware.CString.{strchr, strstr, decimal, atoi, pos, negsuc}

found : strstr (codes "\r\n") (codes "ab\r\ncd") ≡ some (codes "ab", codes "\r\ncd")
unfolding strstr
found = refl

missing : strchr b':' (codes "abc") ≡ none
unfolding strchr
missing = refl

two_hundred : decimal 200 ≡ codes "200"
unfolding decimal
two_hundred = refl

length_field : atoi (codes " 123\r\n") ≡ pos 123
unfolding atoi
length_field = refl

minus_one : atoi (codes " -1\r\n") ≡ negsuc 0
unfolding atoi
minus_one = refl
