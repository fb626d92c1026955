-- ===== src/Email/Templates/Otp.antt =====
-- src/modules/email/templates/otp-email.ts.
use vnst_be.Utils.Format.{convert_wallet_to_short_string}
use vnst_be.Base.{List, [], ◌∷◌, Text}
use vnst_be.Email.Templates.Pieces.{Piece, lit, render, hole}

abbrev pub otp_pieces : Text → Text → List Piece
otp_pieces wallet otp_number =
    lit "<div\n"
    ∷ lit "  style=\"\n"
    ∷ lit "    margin-top: 20px;\n"
    ∷ lit "    font-size: 20px;\n"
    ∷ lit "    font-style: normal;\n"
    ∷ lit "    font-weight: 700;\n"
    ∷ lit "    line-height: 24px;\n"
    ∷ lit "    color: var(--color-vnst-ver-1-black, var(--label-color-lv-1, #000));\n"
    ∷ lit "  \"\n"
    ∷ lit ">\n"
    ∷ lit "  Verify your Email\n"
    ∷ lit "</div>\n"
    ∷ lit "<div\n"
    ∷ lit "  style=\"\n"
    ∷ lit "    margin-top: 8px;\n"
    ∷ lit "    color: var(--color-vnst-ver-1-dark-3, #888);\n"
    ∷ lit "    font-size: 12px;\n"
    ∷ lit "    font-style: normal;\n"
    ∷ lit "    font-weight: 500;\n"
    ∷ lit "    line-height: 14px;\n"
    ∷ lit "  \"\n"
    ∷ lit ">\n"
    ∷ lit "  For security reasons, please enter the following OTP within 5 minutes\n"
    ∷ lit "  and do not share it with anyone.\n"
    ∷ lit "</div>\n"
    ∷ lit "<div\n"
    ∷ lit "  style=\"\n"
    ∷ lit "    color: var(--color-vnst-ver-1-black, var(--label-color-lv-1, #000));\n"
    ∷ lit "    font-size: 12px;\n"
    ∷ lit "    font-style: normal;\n"
    ∷ lit "    font-weight: 500;\n"
    ∷ lit "    line-height: 14px;\n"
    ∷ lit "    margin-top: 30px;\n"
    ∷ lit "  \"\n"
    ∷ lit ">\n"
    ∷ lit "  OTP for Wallet "
    ∷ hole (convert_wallet_to_short_string wallet)
    ∷ lit ":\n"
    ∷ lit "</div>\n"
    ∷ lit "<div\n"
    ∷ lit "  style=\"\n"
    ∷ lit "    margin: 20px 0;\n"
    ∷ lit "    border-radius: 10px;\n"
    ∷ lit "    background: #f2f4f5;\n"
    ∷ lit "    padding: 18px 124px;\n"
    ∷ lit "    text-align: center;\n"
    ∷ lit "    font-size: 24px;\n"
    ∷ lit "    font-style: normal;\n"
    ∷ lit "    font-weight: 700;\n"
    ∷ lit "    line-height: 100%;\n"
    ∷ lit "    color: #00c096;\n"
    ∷ lit "    white-space: nowrap;\n"
    ∷ lit "  \"\n"
    ∷ lit ">\n"
    ∷ lit "  "
    ∷ hole (otp_number)
    ∷ lit "\n"
    ∷ lit "</div>\n"
    ∷ lit "<div\n"
    ∷ lit "  style=\"\n"
    ∷ lit "    margin-top: 20px;\n"
    ∷ lit "    color: var(--label-color-lv-1, #000);\n"
    ∷ lit "    font-size: 12px;\n"
    ∷ lit "    font-style: normal;\n"
    ∷ lit "    font-weight: 500;\n"
    ∷ lit "    line-height: 18px;\n"
    ∷ lit "  \"\n"
    ∷ lit ">\n"
    ∷ lit "  This Email is automatically generated. Please do not reply!\n"
    ∷ lit "</div>"
    ∷ []

unfoldable pub otp_template : Text → Text → Text
otp_template wallet otp_number = render (otp_pieces wallet otp_number)
