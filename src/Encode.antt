-- ===== src/Encode.antt =====
-- src/encode/encode.hpp and encode.cpp: the names under which ICU knows an encoding, and the
-- conversion of a text between two encodings. `Icu` is `ucnv_convert` of ICU.
pub mod Names
use Prim.Native.String.{String}
use server.Prelude.{
  ℕ, ◌*◌, ◌%◌, ◌^◌, ◌≡◌, Bool, true, false, List, [], ◌∷◌, ◌==◌, if◌then◌else◌, length, take,
}

pub data EncodeType : Type 0 where
  system ibm037 ibm437 ibm500 asmo_708 dos_720 ibm737 ibm775 ibm850 ibm852 ibm855 ibm857 ibm00858
        ibm860 ibm861 dos_862 ibm863 ibm864 ibm865 cp866 ibm869 ibm870 windows_874 cp875 shift_jis
        gb2312 ks_c_5601_1987 big5 ibm1026 ibm01047 ibm01140 ibm01141 ibm01142 ibm01143 ibm01144
        ibm01145 ibm01146 ibm01147 ibm01148 ibm01149 utf16 unicodefffe windows_1250 windows_1251
        windows_1252 windows_1253 windows_1254 windows_1255 windows_1256 windows_1257 windows_1258
        johab macintosh x_mac_japanese x_mac_chinesetrad x_mac_korean x_mac_arabic x_mac_hebrew
        x_mac_greek x_mac_cyrillic x_mac_chinesesimp x_mac_romanian x_mac_ukrainian x_mac_thai
        x_mac_ce x_mac_icelandic x_mac_turkish x_mac_croatian x_chinese_cns x_cp20001 x_chinese_eten
        x_cp20003 x_cp20004 x_cp20005 x_ia5 x_ia5_german x_ia5_swedish x_ia5_norwegian us_ascii
        x_cp20261 x_cp20269 ibm273 ibm277 ibm278 ibm280 ibm284 ibm285 ibm290 ibm297 ibm420 ibm423
        ibm424 x_ebcdic_koreanextended ibm_thai koi8_r ibm871 ibm880 ibm905 ibm00924 euc_jp
        x_cp20936 x_cp20949 cp1025 koi8_u iso_8859_1 iso_8859_2 iso_8859_3 iso_8859_4 iso_8859_5
        iso_8859_6 iso_8859_7 iso_8859_8 iso_8859_9 iso_8859_13 iso_8859_15 x_europa iso_8859_8_i
        iso_2022_jp csiso2022jp iso_2022_kr x_cp50227 euc_cn euc_kr hz_gb_2312 gb18030 x_iscii_de
        x_iscii_be x_iscii_ta x_iscii_te x_iscii_as x_iscii_or x_iscii_ka x_iscii_ma x_iscii_gu
        x_iscii_pa utf7 utf8 utf32 utf32be :
      EncodeType

-- The value of a constructor.
abbrev pub encode_code : EncodeType → ℕ
encode_code system = 0
encode_code ibm037 = 1
encode_code ibm437 = 2
encode_code ibm500 = 3
encode_code asmo_708 = 4
encode_code dos_720 = 5
encode_code ibm737 = 6
encode_code ibm775 = 7
encode_code ibm850 = 8
encode_code ibm852 = 9
encode_code ibm855 = 10
encode_code ibm857 = 11
encode_code ibm00858 = 12
encode_code ibm860 = 13
encode_code ibm861 = 14
encode_code dos_862 = 15
encode_code ibm863 = 16
encode_code ibm864 = 17
encode_code ibm865 = 18
encode_code cp866 = 19
encode_code ibm869 = 20
encode_code ibm870 = 21
encode_code windows_874 = 22
encode_code cp875 = 23
encode_code shift_jis = 24
encode_code gb2312 = 25
encode_code ks_c_5601_1987 = 26
encode_code big5 = 27
encode_code ibm1026 = 28
encode_code ibm01047 = 29
encode_code ibm01140 = 30
encode_code ibm01141 = 31
encode_code ibm01142 = 32
encode_code ibm01143 = 33
encode_code ibm01144 = 34
encode_code ibm01145 = 35
encode_code ibm01146 = 36
encode_code ibm01147 = 37
encode_code ibm01148 = 38
encode_code ibm01149 = 39
encode_code utf16 = 40
encode_code unicodefffe = 41
encode_code windows_1250 = 42
encode_code windows_1251 = 43
encode_code windows_1252 = 44
encode_code windows_1253 = 45
encode_code windows_1254 = 46
encode_code windows_1255 = 47
encode_code windows_1256 = 48
encode_code windows_1257 = 49
encode_code windows_1258 = 50
encode_code johab = 51
encode_code macintosh = 52
encode_code x_mac_japanese = 53
encode_code x_mac_chinesetrad = 54
encode_code x_mac_korean = 55
encode_code x_mac_arabic = 56
encode_code x_mac_hebrew = 57
encode_code x_mac_greek = 58
encode_code x_mac_cyrillic = 59
encode_code x_mac_chinesesimp = 60
encode_code x_mac_romanian = 61
encode_code x_mac_ukrainian = 62
encode_code x_mac_thai = 63
encode_code x_mac_ce = 64
encode_code x_mac_icelandic = 65
encode_code x_mac_turkish = 66
encode_code x_mac_croatian = 67
encode_code x_chinese_cns = 68
encode_code x_cp20001 = 69
encode_code x_chinese_eten = 70
encode_code x_cp20003 = 71
encode_code x_cp20004 = 72
encode_code x_cp20005 = 73
encode_code x_ia5 = 74
encode_code x_ia5_german = 75
encode_code x_ia5_swedish = 76
encode_code x_ia5_norwegian = 77
encode_code us_ascii = 78
encode_code x_cp20261 = 79
encode_code x_cp20269 = 80
encode_code ibm273 = 81
encode_code ibm277 = 82
encode_code ibm278 = 83
encode_code ibm280 = 84
encode_code ibm284 = 85
encode_code ibm285 = 86
encode_code ibm290 = 87
encode_code ibm297 = 88
encode_code ibm420 = 89
encode_code ibm423 = 90
encode_code ibm424 = 91
encode_code x_ebcdic_koreanextended = 92
encode_code ibm_thai = 93
encode_code koi8_r = 94
encode_code ibm871 = 95
encode_code ibm880 = 96
encode_code ibm905 = 97
encode_code ibm00924 = 98
encode_code euc_jp = 99
encode_code x_cp20936 = 100
encode_code x_cp20949 = 101
encode_code cp1025 = 102
encode_code koi8_u = 103
encode_code iso_8859_1 = 104
encode_code iso_8859_2 = 105
encode_code iso_8859_3 = 106
encode_code iso_8859_4 = 107
encode_code iso_8859_5 = 108
encode_code iso_8859_6 = 109
encode_code iso_8859_7 = 110
encode_code iso_8859_8 = 111
encode_code iso_8859_9 = 112
encode_code iso_8859_13 = 113
encode_code iso_8859_15 = 114
encode_code x_europa = 115
encode_code iso_8859_8_i = 116
encode_code iso_2022_jp = 117
encode_code csiso2022jp = 118
encode_code iso_2022_kr = 119
encode_code x_cp50227 = 120
encode_code euc_cn = 121
encode_code euc_kr = 122
encode_code hz_gb_2312 = 123
encode_code gb18030 = 124
encode_code x_iscii_de = 125
encode_code x_iscii_be = 126
encode_code x_iscii_ta = 127
encode_code x_iscii_te = 128
encode_code x_iscii_as = 129
encode_code x_iscii_or = 130
encode_code x_iscii_ka = 131
encode_code x_iscii_ma = 132
encode_code x_iscii_gu = 133
encode_code x_iscii_pa = 134
encode_code utf7 = 135
encode_code utf8 = 136
encode_code utf32 = 137
encode_code utf32be = 138

-- Where the program runs: on Windows, with the active code page that `GetACP` returns.
pub data Platform : Type 0 where
  posix : Platform
  windows : (code_page : ℕ) → Platform

-- `getSystemCodePage`
unfoldable pub get_system_code_page : Platform → String
get_system_code_page posix = "utf-8"
get_system_code_page (windows code_page) =
    if code_page == 936 then "gb2312" else if code_page == 65001 then "utf-8" else "utf-8"

-- `getEncodeString`: every case that only breaks falls to the system's code page.
unfoldable pub get_encode_string : Platform → EncodeType → String
get_encode_string p gb2312 = "gb2312"
get_encode_string p utf16 = "utf-16"
get_encode_string p utf8 = "utf-8"
get_encode_string p utf32 = "utf-32"
get_encode_string p _ = get_system_code_page p

-- `ucnv_convert`, from the target's name on: the error code, and the bytes that it writes to a target
-- of the given size.
pub record Icu : Type 0 where
  pub convert : (to_name from_name : String) (capacity : ℕ) → List ℕ → ℕ × List ℕ

-- `U_ZERO_ERROR` is 0. The target's size is a `size_t` converted to `int32_t`.
unfoldable pub change_encode : Platform → Icu → List ℕ → EncodeType → EncodeType → Bool × List ℕ
unfolding get_encode_string
change_encode p icu [] from_encode to_encode = (true, [])
change_encode p icu (b ∷ value) from_encode to_encode =
    let capacity = (length (b ∷ value) * 4) % 2 ^ 64 % 2 ^ 32 in
    let (err, out) =
      icu.convert (get_encode_string p to_encode) (get_encode_string p from_encode) capacity
        (b ∷ value) in
    if err == 0 then (true, out) else (false, [])
